-- ===== src/Store/Credentials/Kept/Records.antt =====
-- store/outside.go: what the changes of keyed records keep.
use gangline.Prelude.{String, Option, none, some}
use gangline.Store.World.{update}
use gangline.Store.Credentials.{OutsideState, Vault, call, touch, set_record}
use gangline.Store.Credentials.Outside.{with_outside}
use gangline.Store.Credentials.Records.{put_record, delete_record}
use gangline.Store.Credentials.Rules.{Frame, Leaves, Any, bind-Leaves, then-Leaves, call-Leaves}
use gangline.Store.Credentials.Kept.{touches, with_outside-Leaves}

module _ (I : Vault → Type 0) (Good : OutsideState → Type 0) (Names : String → String → Type 0)
    (Ok : String → Type 0) (frame : Frame I Good Names Ok) (hash : String → String)
    (id name generation key : String) where
  set_record-Leaves :
      (s : OutsideState) (value : Option String)
      → Leaves I Any (call (set_record s.id (hash key) value))
  set_record-Leaves s value =
      call-Leaves I Good Names Ok frame (set_record s.id (hash key) value) (λ v i.
        frame.records (update v.records s.id (update (v.records s.id) (hash key) value)) v i)

  pub put_record-Leaves :
      (value : String) → Leaves I Any (put_record hash id name generation key value)
  unfolding put_record
  put_record-Leaves value =
      bind-Leaves I Good Any (with_outside hash id name generation) _
        (with_outside-Leaves I Good Names Ok frame hash id name generation)
        λ s good.
          then-Leaves I Any touch (call (set_record s.id (hash key) (some value)))
            (touches I Good Names Ok frame hash) (set_record-Leaves s (some value))

  pub delete_record-Leaves : Leaves I Any (delete_record hash id name generation key)
  unfolding delete_record
  delete_record-Leaves =
      bind-Leaves I Good Any (with_outside hash id name generation) _
        (with_outside-Leaves I Good Names Ok frame hash id name generation)
        λ s good. set_record-Leaves s none
