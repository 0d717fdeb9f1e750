-- ===== src/Tests/CredentialRuns.antt =====
-- store/outside.go and store/senders.go: the properties of credentials at concrete inputs.
use gangline.Prelude.{
  String, ◌≡◌, refl, Bool, true, false, none, some, List, [], ◌∷◌, ◌==◌, if◌then◌else◌,
}
use gangline.Core.Types.{Envelope}
use gangline.Store.World.{io}
use gangline.Store.Segment.{segment}
use gangline.Store.Names.{resolve_name}
use gangline.Store.Credentials.{
  OutsideState, SenderRegistration, Vault, ◌>>=◌, call, on_team, resolve_outside, outside_state,
  outside_random, handle,
}
use gangline.Store.Credentials.Outside.{rotate_outside, issue_credential, resolve_principal}
use gangline.Store.Credentials.Senders.{remove_sender}
use gangline.Store.Credentials.Runs.{
  Operation, registers, rotates, removes, acknowledges, puts, operate_all,
}
use gangline.Store.Credentials.Revoked.{IsRefused, resolve_principal-IsRefused}
use gangline.Store.Credentials.Ends.{WhenOk}
use gangline.Store.Credentials.Rotated.{Renews, rotate_outside-Renewed}
use gangline.Store.Credentials.Mailbox.{holds, operate_all-holds}
use gangline.Store.Credentials.Cleared.{Cleared, remove_sender-Cleared}
use gangline.Tests.Samples.{letter, team}

-- a hash of 64 characters that keeps the texts apart by their being the token or not
abbrev digest : String → String
digest token =
    if token == "t1"
    then "0123456789abcdef0123456789abcdef0123456789abcdef0123456789abcdef"
    else "fedcba9876543210fedcba9876543210fedcba9876543210fedcba9876543210"

abbrev queued_note : Envelope
queued_note = record letter { id = "m1"; to = "bob"; recipient = "outside-b" }

abbrev bob : OutsideState
bob = record {
  id = "outside-b";
  name = "bob";
  credential_hash = digest "t0";
  generation = "g0";
  pending = queued_note ∷ [];
}

abbrev eve : SenderRegistration
eve = record { id = "sender-e"; name = "eve"; credential_hash = digest "t1" }

abbrev vault : List Bool → Vault
vault faults = record {
  team = record (team faults) {
    names = λ name.
        if name == "bob" then some "outside-b" else if name == "eve" then some "sender-e" else none;
  };
  outside = λ id. if id == "outside-b" then some bob else none;
  keys = λ id. if id == "sender-e" then some "t1" else none;
  senders = λ id. if id == "sender-e" then some eve else none;
  files = λ path. none;
  records = λ id key. none;
  draws = "t1" ∷ "g1" ∷ "t2" ∷ "g2" ∷ [];
}

-- the rotation has taken the generation away
abbrev rotated : Vault
rotated = operate_all digest (rotates true "bob" "/tmp/key" ∷ []) (vault [])

resolve_principal-IsRefused_example : IsRefused (
    resolve_principal digest "outside-b" "g0"
      (operate_all digest (removes true "bob" ∷ registers true "bob" "/tmp/new" ∷ []) rotated))
unfolding operate_all rotate_outside ◌>>=◌ call on_team io resolve_outside resolve_name segment
    outside_state issue_credential outside_random handle
resolve_principal-IsRefused_example =
    resolve_principal-IsRefused "outside-b" "g0" digest
      (removes true "bob" ∷ registers true "bob" "/tmp/new" ∷ []) rotated refl (refl, (refl, tt))

rotate_outside-Renewed_example :
    WhenOk
      (Renews digest "bob" "outside-b" "g0" "/tmp/key")
      (rotate_outside digest true "bob" "/tmp/key" (vault []))
rotate_outside-Renewed_example =
    rotate_outside-Renewed digest "bob" "outside-b" "g0" "/tmp/key" true (vault []) refl
      (refl, (refl, (refl, (refl, tt))))

abbrev other_operations : List Operation
other_operations =
    rotates true "bob" "/tmp/key"
    ∷ acknowledges "outside-b" "bob" "g1" ("m2" ∷ [])
    ∷ puts "outside-b" "bob" "g1" "send" "{}"
    ∷ registers true "ann" "/tmp/new"
    ∷ []

operate_all-holds_example :
    holds digest "m1" ((operate_all digest other_operations (vault [])).outside "outside-b") ≡ true
operate_all-holds_example =
    operate_all-holds digest "outside-b" "m1" other_operations (vault [])
      (tt, (refl, (tt, (tt, tt)))) (refl, (refl, (refl, (refl, tt)))) refl

remove_sender-Cleared_example :
    Cleared "eve" "sender-e" digest (remove_sender true "eve" (vault (false ∷ false ∷ true ∷ [])))
remove_sender-Cleared_example =
    remove_sender-Cleared "eve" "sender-e" digest true (vault (false ∷ false ∷ true ∷ [])) refl
