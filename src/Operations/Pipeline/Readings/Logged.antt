-- ===== src/Operations/Pipeline/Readings/Logged.antt =====
-- What the actions that read the device add to the log.
use mathlib.Core.List.{append-nil, append_assoc}
use switch_ops.Prelude.{
  ◌≡◌, refl, sym, ap, ◌∙◌, subst, inl, Bool, true, false, Option, none, some, List, [], ◌∷◌, ◌++◌,
  Result, ok, err, All, All-append, arith,
}
use switch_ops.Text.{Text, codes}
use switch_ops.Models.{InterfaceStatus}
use switch_ops.Registry.Actions.{resolve_read_command}
use switch_ops.Operations.Config.{InterfaceConfig, interface_config}
use switch_ops.Operations.Exec.{
  Client, Call, asked, Run, Exec, continue, ◌>>=◌, pure, audited, run_resolved, run_and_audit,
  backup_running_config,
}
use switch_ops.Operations.Catalogue.{OperationKind, is_poe}
use switch_ops.Operations.Pipeline.{with_config, with_row, capture}
use switch_ops.Operations.Reads.{
  Plan, read_interface, read_poe_state, poe_if, read_config, config_if,
}
use switch_ops.Operations.Pipeline.Readings.{
  Heard, Heard-front, IsReading, RowRead, PoeRead, ConfigRead, ConfigReadIf, RowRead-front,
  PoeRead-front, PoeRead-back, ConfigRead-back, Measured,
}

-- Whether it returns or raises, an action adds readings to the log; what it returns has `P` with them.
abbrev pub Logged : {S A : Type 0} → (A → List Call → Type 0) → Run S → Result A × Run S → Type 0
Logged P r (a, r') =
    (new : List Call) × (r'.log ≡ r.log ++ new) × All IsReading new × ((x : _) → a ≡ ok x → P x new)

pub record Logs {S A : Type 0} (P : A → List Call → Type 0) (m : Exec S A) : Type 0 where
  pub at : (r : Run S) → Logged P r (m r)

module _ {S A : Type 0} where
  pub Logs-pure : (a : A) (P : A → List Call → Type 0) → P a [] → Logs {S = S} P (pure a)
  unfolding pure
  Logs-pure a P h = record {
    at = λ r.
        ([], sym (append-nil r.log), tt, (λ x e. let q : a ≡ x = cc e in subst (λ y. P y []) q h));
  }

  pub Logs-mono :
      (P Q : A → List Call → Type 0) (m : Exec S A)
      → ((a : A) (new : List Call) → P a new → Q a new)
      → Logs P m
      → Logs Q m
  Logs-mono P Q m f h = record {
    at = λ r. let (new, log, quiet, is) = h.at r in (new, log, quiet, (λ x e. f x new (is x e)));
  }

module _ {S A B : Type 0} (P : A → List Call → Type 0) (Q : B → List Call → Type 0) where
  pub Logs-bind :
      (m : Exec S A) (f : A → Exec S B)
      → Logs P m
      → ((a : A) (early : List Call) → P a early → Logs (λ b later. Q b (early ++ later)) (f a))
      → Logs Q (m >>= f)
  unfolding ◌>>=◌ continue
  Logs-bind m f hm hf = record { at = λ r. let (a, r') = m r in from r a r' (hm.at r) }
    where
      from :
          (r : Run S) (a : Result A) (r' : Run S)
          → Logged P r (a, r')
          → Logged Q r (continue a f r')
      from r (err e) r' (new, log, quiet, is) = (new, log, quiet, (λ x h. absurd (cc (h))))
      from r (ok a) r' (early, log, quiet, is) =
          let (later, log', quiet', is') = (hf a early (is a refl)).at r' in
          (
            early ++ later,
            log' ∙ ap (λ l. l ++ later) log ∙ append_assoc r.log early later,
            All-append IsReading early later quiet quiet',
            is',
          )

module _ {S : Type 0} (c : Client S) where
  -- An output that was read is in the log.
  abbrev Answered : Text → Text → List Call → Type 0
  Answered symbol output new = Heard symbol output new

  Logs-run_resolved :
      (symbol : Text) (command : Result Text)
      → Logs (Answered symbol) (run_resolved c symbol command)
  unfolding run_resolved
  Logs-run_resolved symbol (err e) = record {
    at = λ r. ([], sym (append-nil r.log), tt, (λ x h. absurd (cc (h))));
  }
  Logs-run_resolved symbol (ok command) = record {
    at = λ r.
        let (output, w) = c.run symbol r.world in
        (
          asked symbol output ∷ [],
          refl,
          (tt, tt),
          (λ x h. inl (ap (asked symbol) (same _ output x h))),
        );
  }
    where
      same : (b : Bool) (output : Result Text) (x : Text) → audited b output ≡ ok x → output ≡ ok x
      same true output x h = unfold audited in h
      same false output x h = absurd (unfold audited in cc (h))

  pub Logs-run_and_audit : (symbol : Text) → Logs (Answered symbol) (run_and_audit c symbol)
  unfolding run_and_audit
  Logs-run_and_audit symbol = Logs-run_resolved symbol (resolve_read_command symbol)

  pub Logs-backup : (text : Text) → Logs (λ path new. Unit {0}) (backup_running_config c text)
  unfolding backup_running_config
  Logs-backup text = record {
    at = λ r. (
      asked (codes "terminal_length_0") (c.run (codes "terminal_length_0") r.world).0 ∷ [],
      refl,
      (tt, tt),
      (λ x h. tt),
    );
  }

  pub Logs-read_interface :
      (canonical : Text) → Logs (RowRead canonical) (read_interface c canonical)
  unfolding read_interface
  Logs-read_interface canonical =
      Logs-bind (Answered (codes "show_interfaces_status")) (RowRead canonical) _ _
        (Logs-run_and_audit (codes "show_interfaces_status"))
        (λ output early h. Logs-pure _ _ (output, Heard-front _ output early [] h, refl))

  pub Logs-poe_if :
      (wanted : Bool) (canonical : Text)
      → Logs (PoeRead wanted canonical) (poe_if c wanted canonical)
  unfolding poe_if read_poe_state
  Logs-poe_if false canonical = Logs-pure none _ refl
  Logs-poe_if true canonical =
      Logs-bind (Answered (codes "show_power_inline")) (PoeRead true canonical) _ _
        (Logs-run_and_audit (codes "show_power_inline"))
        (λ output early h. Logs-pure _ _ (output, Heard-front _ output early [] h, refl))

  pub Logs-read_config : (canonical : Text) → Logs (ConfigRead canonical) (read_config c canonical)
  unfolding read_config
  Logs-read_config canonical =
      Logs-bind (Answered (codes "show_running_config")) (ConfigRead canonical) _ _
        (Logs-run_and_audit (codes "show_running_config"))
        (λ output early h. Logs-pure _ _ (output, Heard-front _ output early [] h, refl))

  pub Logs-config_if :
      (wanted : Bool) (canonical : Text)
      → Logs (ConfigReadIf wanted canonical) (config_if c wanted canonical)
  unfolding config_if
  Logs-config_if false canonical = Logs-pure none _ refl
  Logs-config_if true canonical = Logs-read_config canonical

abbrev pub MeasuredIf : OperationKind → Text → Option Plan → List Call → Type 0
MeasuredIf kind canonical none calls = Unit
MeasuredIf kind canonical (some p) calls = Measured kind canonical p calls

with_config-reads :
    (kind : OperationKind) (interface canonical : Text) (value poe : Option Text)
    (before : InterfaceStatus) (running : Text) (config : Option InterfaceConfig) (p : Plan)
    → with_config kind interface canonical value poe before running config ≡ some p
    → (p.before_interface ≡ before) × (p.before_poe ≡ poe) × (some p.before_config ≡ config)
unfolding with_config
with_config-reads kind interface canonical value poe before running none p h = absurd (cc)
with_config-reads kind interface canonical value poe before running (some config) p h = ground arith

module _ {S : Type 0} (c : Client S) where
  Logs-with_row :
      (kind : OperationKind) (interface canonical : Text) (value poe : Option Text)
      (found : Option InterfaceStatus) (early : List Call)
      → RowRead canonical found early
      → PoeRead (is_poe kind) canonical poe early
      → Logs
          (λ o new. MeasuredIf kind canonical o (early ++ new))
          (with_row c kind interface canonical value poe found)
  unfolding with_row
  Logs-with_row kind interface canonical value poe none early row power = Logs-pure none _ tt
  Logs-with_row kind interface canonical value poe (some before) early row power =
      Logs-bind (Answered c (codes "show_running_config")) _ _ _
        (Logs-run_and_audit c (codes "show_running_config"))
        (λ running new h. Logs-pure _ _ (measured running new h _ refl))
    where
      measured :
          (running : Text) (new : List Call)
          → Heard (codes "show_running_config") running new
          → (o : Option Plan)
          → with_config kind interface canonical value poe before running
              (interface_config running canonical)
            ≡ o
          → MeasuredIf kind canonical o (early ++ (new ++ []))
      measured running new h none e = tt
      measured running new h (some p) e =
          let (a, b, d) =
            with_config-reads kind interface canonical value poe before running
              (interface_config running canonical) p e in
          let all = new ++ [] in
          (
            subst (λ i. RowRead canonical (some i) (early ++ all)) (sym a)
                (RowRead-front canonical (some before) early all row),
            subst (λ o. PoeRead (is_poe kind) canonical o (early ++ all)) (sym b)
                (PoeRead-front (is_poe kind) canonical poe early all power),
            ConfigRead-back canonical (some p.before_config) early all
                (running, Heard-front _ running new [] h, d),
          )

  pub Logs-capture :
      (kind : OperationKind) (interface canonical : Text) (value : Option Text)
      → Logs (MeasuredIf kind canonical) (capture c kind interface canonical value)
  unfolding capture
  Logs-capture kind interface canonical value =
      Logs-bind (RowRead canonical) (MeasuredIf kind canonical) _ _
        (Logs-read_interface c canonical)
        (λ found one row.
          Logs-bind (PoeRead (is_poe kind) canonical)
            (λ o new. MeasuredIf kind canonical o (one ++ new)) _ _
            (Logs-poe_if c (is_poe kind) canonical)
            (λ poe two power.
              Logs-mono _ _ _
                (λ o new h. subst (λ l. MeasuredIf kind canonical o l) (append_assoc one two new) h)
                (Logs-with_row kind interface canonical value poe found (one ++ two)
                  (RowRead-front canonical found one two row)
                  (PoeRead-back (is_poe kind) canonical poe one two power))))
