-- ===== src/Store/Credentials/Runs.antt =====
-- store/outside.go: the operations on outside principals, each under the lock of the team, in any order.
use gangline.Prelude.{String, Bool, List, [], ◌∷◌}
use gangline.Core.Types.{Envelope}
use gangline.Store.Credentials.{Vault}
use gangline.Store.Credentials.Outside.{
  register_outside, rotate_outside, remove_outside, queue_outside, acknowledge,
}
use gangline.Store.Credentials.Records.{put_record, delete_record}

pub data Operation : Type 0 where
  registers rotates : Bool → String → String → Operation
  removes : Bool → String → Operation
  queues : String → Envelope → Operation
  acknowledges : String → String → String → List String → Operation
  puts : String → String → String → String → String → Operation
  deletes : String → String → String → String → Operation

module _ (hash : String → String) where
  abbrev pub operate : Operation → Vault → Vault
  operate (registers origin name path) v = (register_outside hash origin name path v).1
  operate (rotates origin name path) v = (rotate_outside hash origin name path v).1
  operate (removes origin name) v = (remove_outside hash origin name v).1
  operate (queues name e) v = (queue_outside hash name e v).1
  operate (acknowledges id name generation ids) v = (acknowledge hash id name generation ids v).1
  operate (puts id name generation key value) v = (put_record hash id name generation key value v).1
  operate (deletes id name generation key) v = (delete_record hash id name generation key v).1

  unfoldable pub operate_all : List Operation → Vault → Vault
  operate_all [] v = v
  operate_all (o ∷ os) v = operate_all os (operate o v)
