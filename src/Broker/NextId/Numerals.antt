-- ===== src/Broker/NextId/Numerals.antt =====
-- The number that `f"{number:06d}"` in broker/manager.py spells.
use Prim.Native.Char.{code}
use text.Mathlib.TextLemmas.{append_cancel_left}
use unixtime_machine.Prelude.{
  ℕ, zero, suc, ◌≡◌, refl, sym, ap, ◌∙◌, ◌≤◌, ◌<◌, ◌+◌, ◌-◌, ◌*◌, ◌/◌, ◌%◌, String, ◌==◌, arith,
  Bool-cases, inl, inr,
}
use unixtime_machine.Broker.Base.{workspace_path}
use unixtime_machine.Broker.NextId.{digit, last_digits, leading_digits, padded, candidate}

-- The number that digits spell behind `acc`.
spelled : ℕ → String → ℕ
spelled acc String.[] = acc
spelled acc (String.◌∷◌ c s) = spelled (acc * 10 + (code c - 48)) s

code-digit : (d : ℕ) → d < 10 → code (digit d) - 48 ≡ d
code-digit zero h = refl
code-digit (suc zero) h = refl
code-digit (suc (suc zero)) h = refl
code-digit (suc (suc (suc zero))) h = refl
code-digit (suc (suc (suc (suc zero)))) h = refl
code-digit (suc (suc (suc (suc (suc zero))))) h = refl
code-digit (suc (suc (suc (suc (suc (suc zero)))))) h = refl
code-digit (suc (suc (suc (suc (suc (suc (suc zero))))))) h = refl
code-digit (suc (suc (suc (suc (suc (suc (suc (suc zero)))))))) h = refl
code-digit (suc (suc (suc (suc (suc (suc (suc (suc (suc zero))))))))) h = refl
code-digit (suc (suc (suc (suc (suc (suc (suc (suc (suc (suc n)))))))))) h = absurd (omega arith)

spelled-digit :
    (acc n : ℕ) (s : String)
    → spelled acc (String.◌∷◌ (digit (n % 10)) s) ≡ spelled (acc * 10 + n % 10) s
unfolding spelled
spelled-digit acc n s = ap (λ d. spelled (acc * 10 + d) s) (code-digit (n % 10) (omega arith))

-- Digits that stand behind the number's own tenth spell the number.
spelled-back : (n : ℕ) (s : String) → spelled (n / 10) (String.◌∷◌ (digit (n % 10)) s) ≡ spelled n s
spelled-back n s = spelled-digit (n / 10) n s ∙ ap (λ k. spelled k s) (omega arith)

spelled-leading_digits :
    (fuel n : ℕ) (s : String) → n ≤ fuel → spelled 0 (leading_digits fuel n s) ≡ spelled n s
unfolding leading_digits
spelled-leading_digits zero n s h = ap (λ k. spelled k s) (omega arith)
spelled-leading_digits (suc fuel) n s h = elim (Bool-cases (n == 0)) [
  | inl e ↦ rw e (ap (λ k. spelled k s) (ground arith))
  | inr e ↦ rw e (
      spelled-leading_digits fuel (n / 10) (String.◌∷◌ (digit (n % 10)) s) (ground arith)
      ∙ spelled-back n s)
]

-- The number before its last `width` digits.
before : ℕ → ℕ → ℕ
before zero n = n
before (suc width) n = before width (n / 10)

spelled-last_digits :
    (width n : ℕ) (s : String) → spelled (before width n) (last_digits width n s) ≡ spelled n s
unfolding before last_digits
spelled-last_digits zero n s = refl
spelled-last_digits (suc width) n s =
    spelled-last_digits width (n / 10) (String.◌∷◌ (digit (n % 10)) s) ∙ spelled-back n s

before_six : (n : ℕ) → before 6 n ≡ n / 1000000
unfolding before
before_six n = omega arith

spelled-padded : (n : ℕ) → spelled 0 (padded n) ≡ n
unfolding padded spelled
spelled-padded n =
    spelled-leading_digits n (n / 1000000) (last_digits 6 n "") (omega arith)
    ∙ ap (λ k. spelled k (last_digits 6 n "")) (sym (before_six n))
    ∙ spelled-last_digits 6 n ""

padded_inj : (m n : ℕ) → padded m ≡ padded n → m ≡ n
padded_inj m n e = sym (spelled-padded m) ∙ ap (spelled 0) e ∙ spelled-padded n

-- Two numbers give two identifiers.
pub candidate_inj :
    (system_id : String) (m n : ℕ) → candidate system_id m ≡ candidate system_id n → m ≡ n
unfolding candidate
candidate_inj system_id m n e =
    padded_inj m n (append_cancel_left "-" _ _ (append_cancel_left system_id _ _ e))

-- Two identifiers give two workspaces.
pub workspace_path_inj :
    (system_id a b : String) → workspace_path system_id a ≡ workspace_path system_id b → a ≡ b
workspace_path_inj system_id a b e =
    append_cancel_left "/" a b
      (append_cancel_left system_id _ _ (append_cancel_left "sessions/" _ _ e))
