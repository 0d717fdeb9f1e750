-- ===== src/Store/Inbox/Steps.antt =====
-- store/inbox.go: each operation on the mail resolves what is pending before it moves an envelope.
use gangline.Prelude.{
  String, ◌≡◌, inl, inr, ap, ◌∙◌, Bool, true, Option, none, some, List, is_some, arith, Bool-cases,
}
use gangline.Core.Types.{Agent, Envelope, Time, ResultRef}
use gangline.Store.Segment.{segment}
use gangline.Store.Names.{check}
use gangline.Store.World.{
  not_exist, exist, fault, name_taken, envelope_queued, invalid, Result, ok, err, World, Inbox,
  Post, catch,
}
use gangline.Store.World.Rules.{Post-io, Post-bind, Post-from}
use gangline.Store.Save.{save}
use gangline.Store.Save.Atomic.{Untouched, Saved, save-Saved}
use gangline.Store.Ledger.{Dir, new_dir, files, read_idle, resolve_idle_publication}
use gangline.Store.Ledger.Reads.{counted}
use gangline.Store.Ledger.Keeps.{Kept, Settled, read_idle-Post, counted-settled}
use gangline.Store.Inbox.{
  set_inbox, write_envelope, remove_envelope, withdraw, present_ok, dir_of, remove_cleanup, cleaned,
  clean_ref, clean_result, with_result, move_envelope, rename_envelope, file_result, result_dir,
  receipted, settle,
}
use gangline.Store.Inbox.Counts.{Counts, still_live, Counts-Kept, Counts-trans, if_raised}

-- Nothing is pending, and the work of `r` is what `w` stands for.
pub record Quiet (r : String) (w v : World) : Type 0 where
  pub live : is_some (w.states r) ≡ true → is_some (v.states r) ≡ true
  pub pending : v.idle.pending ≡ none
  pub work : is_some (w.states r) ≡ true → v.idle.work r ≡ counted w r

pub Counts-Quiet : (r : String) (w v : World) → Quiet r w v → Counts r 0 w v
Counts-Quiet r w v h = record {
  live = h.live;
  count = λ live. omega (arith, counted-settled v r h.pending, h.work live);
}

-- an action that, from a quiet state, leaves one, or stops with the same count
abbrev pub Steps : {A : Type 0} → String → World → Result A × World → Type 0
Steps r w = Post (λ _ v. Quiet r w v) (Counts r 0 w)

module _ (r : String) (w : World) where
  resolve-Steps : (v : World) → Counts r 0 w v → Steps r w (resolve_idle_publication v)
  unfolding resolve_idle_publication
  resolve-Steps v h =
      Post-from (λ t u. Settled r v t u) (λ _ u. Quiet r w u) (Kept r v) (Counts r 0 w)
        (λ u k. Counts-trans r 0 0 w v u h (Counts-Kept r v u k)) read_idle _ v (read_idle-Post r v)
        λ t u k. record {
          live = λ live. still_live r v u k.states (h.live live);
          pending = ap (λ s. s.pending) k.idle ∙ k.pending;
          work =
              λ live. ap (λ s. s.work r) k.idle ∙ k.work (h.live live) ∙ h.count live ∙ omega arith;
        }

  check-Steps : (id : String) (v : World) → Quiet r w v → Steps r w (check id v)
  unfolding check
  check-Steps id v h = elim (Bool-cases (segment id)) [
    | inl valid ↦ rw valid h
    | inr other ↦ rw other (Counts-Quiet r w v h)
  ]

  Quiet-faults : (v : World) (gs : List Bool) → Quiet r w v → Quiet r w (record v { faults = gs })
  Quiet-faults v gs h = record { live = h.live; pending = h.pending; work = h.work }

  Quiet-inbox :
      (v : World) (gs : List Bool) (i : String) (f : Inbox → Inbox)
      → Quiet r w v
      → Quiet r w (set_inbox i f (record v { faults = gs }))
  unfolding set_inbox
  Quiet-inbox v gs i f h = record { live = h.live; pending = h.pending; work = h.work }

  write-Steps :
      (i : String) (d : Dir) (e : Envelope) (v : World)
      → Quiet r w v
      → Steps r w (write_envelope i d e v)
  unfolding write_envelope
  write-Steps i d e v h =
      Post-io (λ _ u. Quiet r w u) (Counts r 0 w) _ v
        (λ gs. Counts-Quiet r w _ (Quiet-faults v gs h)) (λ gs. Quiet-inbox v gs i _ h)

  remove-Steps :
      (i : String) (d : Dir) (id : String) (v : World)
      → Quiet r w v
      → Post (λ _ u. Quiet r w u) (Quiet r w) (remove_envelope i d id v)
  unfolding remove_envelope
  remove-Steps i d id v h =
      Post-io (λ _ u. Quiet r w u) (Quiet r w) _ v (λ gs. Quiet-faults v gs h)
        (λ gs.
          if_raised (λ _ u. Quiet r w u) (Quiet r w) (is_some (files d (v.inboxes i) id)) _ _
            (λ there. Quiet-inbox v gs i _ h) (λ gone. Quiet-faults v gs h))

  move-Steps :
      (i : String) (d : Dir) (o : Option Envelope) (id : String) (v : World) (gs : List Bool)
      → Quiet r w v
      → Steps r w (move_envelope i d o id (record v { faults = gs }))
  unfolding move_envelope
  move-Steps i d none id v gs h = Counts-Quiet r w _ (Quiet-faults v gs h)
  move-Steps i d (some e) id v gs h = Quiet-inbox v gs i _ h

  rename-Steps :
      (i : String) (d : Dir) (id : String) (v : World)
      → Quiet r w v
      → Steps r w (rename_envelope i d id v)
  unfolding rename_envelope
  rename-Steps i d id v h =
      Post-io (λ _ u. Quiet r w u) (Counts r 0 w) _ v
        (λ gs. Counts-Quiet r w _ (Quiet-faults v gs h))
        (λ gs. move-Steps i d ((v.inboxes i).new id) id v gs h)

  Quiet-Untouched : (u v : World) → Untouched u v → Quiet r w u → Quiet r w v
  Quiet-Untouched u v k h = record {
    live = λ live. still_live r u v k.states (h.live live);
    pending = ap (λ s. s.pending) k.idle ∙ h.pending;
    work = λ live. ap (λ s. s.work r) k.idle ∙ h.work live;
  }

  Quiet-Saved : (i : String) (a : Agent) (u v : World) → Saved i a u v → Quiet r w u → Quiet r w v
  Quiet-Saved i a u v k h = record {
    live = λ live. ap (λ f. is_some (f r)) k.states ∙ ground (arith, h.live live);
    pending = ap (λ s. s.pending) k.idle ∙ h.pending;
    work = λ live. ap (λ s. s.work r) k.idle ∙ h.work live;
  }

  save-Steps :
      (i : String) (a : Agent) (now : Time) (v : World) → Quiet r w v → Steps r w (save i a now v)
  save-Steps i a now v h = go (save i a now v) (save-Saved i a now v)
    where
      go :
          (m : Result (Unit {0}) × World)
          → Post (λ _ u. Saved i a v u) (Untouched v) m
          → Steps r w m
      go (ok x, u) k = Quiet-Saved i a v u k h
      go (err x, u) k = Counts-Quiet r w u (Quiet-Untouched v u k h)

  cleanup-Steps :
      (i : String) (o : Option Dir) (id : String) (v : World)
      → Quiet r w v
      → Steps r w (remove_cleanup i o id v)
  unfolding remove_cleanup
  cleanup-Steps i none id v h = Counts-Quiet r w v h
  cleanup-Steps i (some d) id v h = go (remove_envelope i d id v) (remove-Steps i d id v h)
    where
      go :
          (m : Result (Unit {0}) × World)
          → Post (λ _ u. Quiet r w u) (Quiet r w) m
          → Steps r w (catch m present_ok)
      go (ok x, u) k = k
      go (err not_exist, u) k = k
      go (err exist, u) k = Counts-Quiet r w u k
      go (err fault, u) k = Counts-Quiet r w u k
      go (err name_taken, u) k = Counts-Quiet r w u k
      go (err envelope_queued, u) k = Counts-Quiet r w u k
      go (err invalid, u) k = Counts-Quiet r w u k

  clean_ref-Steps :
      (o : Option ResultRef) (a : Agent) (now : Time) (v : World)
      → Quiet r w v
      → Steps r w (clean_ref o a now v)
  unfolding clean_ref
  clean_ref-Steps none a now v h = h
  clean_ref-Steps (some ref) a now v h =
      Post-bind (λ _ u. Quiet r w u) (λ _ u. Quiet r w u) (Counts r 0 w) resolve_idle_publication _
        v (resolve-Steps v (Counts-Quiet r w v h))
        λ _ v1 h1.
          Post-bind (λ _ u. Quiet r w u) (λ _ u. Quiet r w u) (Counts r 0 w) (check ref.id) _ v1
            (check-Steps ref.id v1 h1)
            λ _ v2 h2.
              Post-bind (λ _ u. Quiet r w u) (λ _ u. Quiet r w u) (Counts r 0 w)
                (remove_cleanup a.id (dir_of ref.directory) ref.id) _ v2
                (cleanup-Steps a.id (dir_of ref.directory) ref.id v2 h2)
                λ _ v3 h3.
                  Post-bind (λ _ u. Quiet r w u) (λ _ u. Quiet r w u) (Counts r 0 w)
                    (save a.id (cleaned a) now) _ v3 (save-Steps a.id (cleaned a) now v3 h3)
                    λ _ v4 h4. h4

  file_result-Steps :
      (i : String) (e : Envelope) (d : Dir) (outcome reason : String) (v : World)
      → Quiet r w v
      → Steps r w (file_result i e d outcome reason v)
  unfolding file_result
  file_result-Steps i e d outcome reason v h =
      Post-bind (λ _ u. Quiet r w u) (λ _ u. Quiet r w u) (Counts r 0 w) (check e.id) _ v
        (check-Steps e.id v h)
        λ _ v1 h1.
          Post-bind (λ _ u. Quiet r w u) (λ _ u. Quiet r w u) (Counts r 0 w)
            (write_envelope i new_dir (with_result e outcome reason)) _ v1
            (write-Steps i new_dir (with_result e outcome reason) v1 h1)
            λ _ v2 h2. rename-Steps i d e.id v2 h2

  pub settle-Steps :
      (a : Agent) (e : Envelope) (outcome reason : String) (now : Time) (v : World)
      → Counts r 0 w v
      → Steps r w (settle a e outcome reason now v)
  unfolding settle clean_result
  settle-Steps a e outcome reason now v h =
      Post-bind (λ _ u. Quiet r w u) (λ _ u. Quiet r w u) (Counts r 0 w) resolve_idle_publication _
        v (resolve-Steps v h)
        λ _ v1 h1.
          Post-bind (λ _ u. Quiet r w u) (λ _ u. Quiet r w u) (Counts r 0 w)
            (clean_ref a.cleanup a now) _ v1 (clean_ref-Steps a.cleanup a now v1 h1)
            λ b v2 h2.
              Post-bind (λ _ u. Quiet r w u) (λ _ u. Quiet r w u) (Counts r 0 w)
                (file_result a.id e (result_dir outcome) outcome reason) _ v2
                (file_result-Steps a.id e (result_dir outcome) outcome reason v2 h2)
                λ _ v3 h3.
                  Post-bind (λ _ u. Quiet r w u) (λ _ u. Quiet r w u) (Counts r 0 w)
                    (save a.id (receipted b e outcome) now) _ v3
                    (save-Steps a.id (receipted b e outcome) now v3 h3)
                    λ _ v4 h4.
                      clean_ref-Steps (receipted b e outcome).cleanup (receipted b e outcome) now v4
                        h4

  loosen : (m : Result (Unit {0}) × World) → Post (λ _ u. Quiet r w u) (Quiet r w) m → Steps r w m
  loosen (ok x, u) k = k
  loosen (err x, u) k = Counts-Quiet r w u k

  pub withdraw-Steps : (i id : String) (v : World) → Counts r 0 w v → Steps r w (withdraw i id v)
  unfolding withdraw
  withdraw-Steps i id v h =
      Post-bind (λ _ u. Quiet r w u) (λ _ u. Quiet r w u) (Counts r 0 w) resolve_idle_publication _
        v (resolve-Steps v h)
        λ _ v1 h1.
          Post-bind (λ _ u. Quiet r w u) (λ _ u. Quiet r w u) (Counts r 0 w) (check id) _ v1
            (check-Steps id v1 h1)
            λ _ v2 h2. loosen (remove_envelope i new_dir id v2) (remove-Steps i new_dir id v2 h2)
