-- ===== src/Store/Credentials/Records.antt =====
-- store/outside.go: the keyed records of an outside principal, each read or changed within `WithOutside`.
use gangline.Prelude.{String, Option, none, some}
use gangline.Store.Credentials.{M, pure, reading, ◌>>=◌, ◌>>◌, call, touch, set_record}
use gangline.Store.Credentials.Outside.{with_outside}

module _ (hash : String → String) (id name generation key : String) where
  -- OutsideMailbox.Get
  unfoldable pub read_record : M (Option String)
  read_record = with_outside hash id name generation >>= λ s.
      touch >> reading (λ v. pure (v.records s.id (hash key)))

  -- OutsideMailbox.Put
  unfoldable pub put_record : String → M (Unit {0})
  put_record value = with_outside hash id name generation >>= λ s.
      touch >> call (set_record s.id (hash key) (some value))

  -- OutsideMailbox.Delete, which takes a missing record for a deleted one
  unfoldable pub delete_record : M (Unit {0})
  delete_record =
      with_outside hash id name generation >>= λ s. call (set_record s.id (hash key) none)
