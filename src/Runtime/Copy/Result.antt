-- ===== src/Runtime/Copy/Result.antt =====
-- scripts/utmlib.py `copy_exclusive`: what a copy that returns has done.
use unixtime_machine.Prelude.{◌≡◌, refl, Bool, false, String, arith}
use unixtime_machine.Prelude.Dict.{Dict, contains, put}
use unixtime_machine.Outcome.{
  ok, Yields, Yields-then, Yields-refuse_if, Yields-bind, Yields-by, Yields-ok,
}
use unixtime_machine.Host.{GoldenFile, no_file, no_access, no_regular, no_read, readable, DiskFile}
use unixtime_machine.Runtime.Copy.{Medium, copy_digest, copy_exclusive}

-- The method and the digest come from a source that could be read.
copy_digest-readable :
    (name : String) (reflink : Bool) (medium : Medium) (source : GoldenFile)
    (method digest : String)
    → copy_digest name reflink medium source ≡ ok (method, digest)
    → source ≡ readable digest
unfolding copy_digest
copy_digest-readable name reflink medium no_file method digest e = absurd (cc)
copy_digest-readable name reflink medium no_access method digest e = absurd (cc)
copy_digest-readable name reflink medium no_regular method digest e = absurd (cc)
copy_digest-readable name reflink medium no_read method digest e = absurd (cc)
copy_digest-readable name reflink medium (readable d) method digest e = ground arith

-- What `copy_exclusive` has done where it returns.
pub record IsCopied (medium : Medium) (source : GoldenFile) (name : String)
    (before after : Dict DiskFile) : Type 0 where
  pub digest : String
  pub source_holds : source ≡ readable digest
  pub was_absent : contains name before ≡ false
  pub result : after ≡ put name (record { digest = digest; mode = medium.mode }) before

pub copy_exclusive-IsCopied :
    (reflink : Bool) (medium : Medium) (source : GoldenFile) (name : String)
    (before : Dict DiskFile)
    → Yields
        (λ (method, after). IsCopied medium source name before after)
        (copy_exclusive reflink medium source name before)
unfolding copy_exclusive
copy_exclusive-IsCopied reflink medium source name before =
    let known = copy_digest-readable name reflink medium source in
    Yields-then _ _ _ λ content. Yields-refuse_if _ (contains name before) _ _ λ absent.
      Yields-bind (λ (method, digest). source ≡ readable digest) _ _ _
        (Yields-by _ λ (method, digest) e. known method digest e)
        λ (method, digest) holds.
          Yields-ok _ _
            (record { digest = digest; source_holds = holds; was_absent = absent; result = refl })
