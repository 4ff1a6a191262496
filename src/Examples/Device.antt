-- ===== src/Examples/Device.antt =====
-- A simulated switch with one port, a digest, and a policy file that grants the port.
use switch_ops.Prelude.{
  ◌≡◌, refl, Bool, true, false, none, some, [], ◌∷◌, ◌++◌, any, if◌then◌else◌, ok,
}
use switch_ops.Text.{Text, codes, text_eq}
use switch_ops.Policy.Model.{operable, Policy, Stored, is_device_key}
use switch_ops.Policy.File.{written}
use switch_ops.Operations.Lock.{WriteLock}
use switch_ops.Operations.Exec.{Client}

-- The port is shut down or not; a switch that does not obey accepts commands and ignores them.
pub record Switch : Type 0 where
  pub is_down : Bool
  pub obeys : Bool

abbrev status_text : Bool → Text
status_text is_down =
    codes
      "Port      Name               Status       Vlan       Duplex  Speed Type\nGi0/1     lab port           "
    ++ (if is_down then codes "disabled  " else codes "connected ")
    ++ codes "   1          a-full a-1000 10/100/1000BaseTX\n"

abbrev config_text : Bool → Text
config_text is_down =
    codes "hostname sw\n!\ninterface GigabitEthernet0/1\n description lab port\n"
    ++ (if is_down then codes " shutdown\n" else [])
    ++ codes "!\nend\n"

abbrev pub switch_client : Client Switch
switch_client = record {
  run = λ symbol w. (
    (if text_eq symbol (codes "show_interfaces_status")
        then ok (status_text w.is_down)
        else ok (config_text w.is_down)),
    w,
  );
  run_raw_action = λ commands w. (
    ok [],
    (if w.obeys
        then record w { is_down = any (λ l. text_eq l (codes "shutdown")) commands }
        else w),
  );
  record_audit = λ entry w. (true, w);
  write_backup = λ text w. (ok (codes "backups/sw.txt"), w);
}

abbrev pub obedient : Switch
obedient = record { is_down = false; obeys = true }

abbrev pub stubborn : Switch
stubborn = record { is_down = false; obeys = false }

-- A digest of 64 hexadecimal digits that tells two hosts apart by their first characters.
abbrev pub digest : Text → Text
digest t =
    (if text_eq t (codes "192.0.2.1") then codes "b" else codes "a")
    ++ codes "aaaaaaaaaaaaaaaaaaaaaaaaaaaaaaaaaaaaaaaaaaaaaaaaaaaaaaaaaaaaaaa"

pub digest_hex : (t : Text) → is_device_key (digest t) ≡ true
unfolding is_device_key
digest_hex t = by_test (text_eq t (codes "192.0.2.1"))
  where
    by_test :
        (b : Bool)
        → is_device_key (
            (if b then codes "b" else codes "a")
            ++ codes "aaaaaaaaaaaaaaaaaaaaaaaaaaaaaaaaaaaaaaaaaaaaaaaaaaaaaaaaaaaaaaa")
          ≡ true
    by_test true = refl
    by_test false = refl

abbrev pub host : Text
host = codes "192.0.2.1"

abbrev pub port : Text
port = codes "GigabitEthernet0/1"

abbrev pub granting : Policy
granting = record {
  controlled_writes_enabled = true;
  devices = (digest host, (port, operable) ∷ []) ∷ [];
}

abbrev pub file : Stored
file = written granting

abbrev pub open_lock : WriteLock
open_lock = record { is_unlocked = true; unlocked_at = some 5 }

abbrev pub closed_lock : WriteLock
closed_lock = record { is_unlocked = false; unlocked_at = none }
