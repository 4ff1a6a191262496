-- ===== src/Assurance/Desk/Laws.antt =====
-- What is saved is found, and what was sent stays as it is without a call that sends.
use mathlib.Core.List.{append-nil}
use switch_ops.Prelude.{◌≡◌, refl, ap, ◌∙◌, subst, some, [], ◌++◌}
use switch_ops.Text.{Text, text_eq_refl}
use switch_ops.Text.Dict.{lookup-insert}
use switch_ops.Operations.Exec.{Exec}
use switch_ops.Operations.Pipeline.Silent.{Silent}
use switch_ops.Assurance.Model.{ChangeSession}
use switch_ops.Assurance.Desk.{Desk, store, save, find, on_client}

module _ {S : Type 0} where
  -- A silent run leaves what was sent.
  pub on_client-sent :
      {A : Type 0} (m : Exec S A) (d : Desk S) → Silent m → (on_client m d).1.sent ≡ d.sent
  unfolding on_client
  on_client-sent m d silent =
      ap (λ l. d.sent ++ l)
        (silent.sent (record { world = d.world; stages = []; sent = []; log = [] }))
      ∙ append-nil d.sent

  -- What is stored is found.
  pub find-save : (s : ChangeSession) (d : Desk S) → find s.id (save s d) ≡ some s
  unfolding find save store
  find-save s d = rw (lookup-insert s.id s.id s d.sessions, text_eq_refl s.id) refl

  pub find-store : (s : ChangeSession) (d : Desk S) → find s.id (store s d) ≡ some s
  unfolding find store
  find-store s d = rw (lookup-insert s.id s.id s d.sessions, text_eq_refl s.id) refl

  pub find-save_key :
      (s : ChangeSession) (d : Desk S) {id : Text} → s.id ≡ id → find id (save s d) ≡ some s
  find-save_key s d key = subst (λ id. find id (save s d) ≡ some s) key (find-save s d)
