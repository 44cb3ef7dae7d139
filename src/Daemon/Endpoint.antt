-- ===== src/Daemon/Endpoint.antt =====
-- internal/daemon/endpoint.go: the one loopback port, chosen once and kept. `free` says on which ports
-- `net.Listen` succeeds; `start` is what `randomOffset` drew.
pub mod Laws
mod Examples
use game_forge.Prelude.{
  ℕ, zero, suc, ◌+◌, ◌-◌, ◌%◌, Bool, true, false, not, Option, none, some, Result, ok, err, ◌==◌,
  if◌then◌else◌,
}
use game_forge.Storage.{
  Disk, missing, unreadable, malformed, holds, Io, IoError, read_failed, parse_failed,
  remove_failed, store,
}

abbrev pub port_min : ℕ
port_min = 50000

abbrev pub port_max : ℕ
port_max = 59999

abbrev pub port_scan : ℕ
port_scan = 512

-- The file endpoint.json holds a port.
abbrev pub EndpointDisk : Type 0
EndpointDisk = Disk ℕ

-- `LoadEndpointPort`: 0 while none has been chosen.
pub load_endpoint_port : EndpointDisk → Result IoError ℕ
load_endpoint_port missing = ok 0
load_endpoint_port unreadable = err read_failed
load_endpoint_port malformed = err parse_failed
load_endpoint_port (holds port) = ok port

-- `persistEndpointPort` replaces the file as the project registry does.
pub persist_endpoint_port : Io ℕ → ℕ → EndpointDisk → EndpointDisk × Option IoError
persist_endpoint_port io port disk = store io port disk

-- `ClearEndpoint`; `removable` is the outcome of `os.Remove`.
clear_endpoint : Bool → EndpointDisk → EndpointDisk × Option IoError
clear_endpoint removable missing = (missing, none)
clear_endpoint true unreadable = (missing, none)
clear_endpoint true malformed = (missing, none)
clear_endpoint true (holds port) = (missing, none)
clear_endpoint false unreadable = (unreadable, some remove_failed)
clear_endpoint false malformed = (malformed, some remove_failed)
clear_endpoint false (holds port) = (holds port, some remove_failed)

pub data BindError : Type 0 where
  port_unknown persist_failed : IoError → BindError
  occupied : ℕ → BindError
  no_free_port : BindError

-- The port of probe `i`.
pub probe : ℕ → ℕ → ℕ
probe start i = port_min + (start + i) % (port_max - port_min + 1)

persisted : ℕ → EndpointDisk × Option IoError → EndpointDisk × Result BindError ℕ
persisted port (disk, none) = (disk, ok port)
persisted port (disk, some e) = (disk, err (persist_failed e))

-- The scan from probe `i`, with `rounds` probes left.
scan : (ℕ → Bool) → Io ℕ → ℕ → ℕ → ℕ → EndpointDisk → EndpointDisk × Result BindError ℕ
unfolding probe persist_endpoint_port persisted
scan free io start i zero disk = (disk, err no_free_port)
scan free io start i (suc rounds) disk =
    let later = scan free io start (i + 1) rounds disk in
    if free (probe start i)
    then persisted (probe start i) (persist_endpoint_port io (probe start i) disk)
    else later

bind_known : (ℕ → Bool) → Io ℕ → ℕ → EndpointDisk → ℕ → EndpointDisk × Result BindError ℕ
unfolding scan
bind_known free io start disk zero = scan free io start 0 port_scan disk
bind_known free io start disk (suc p) =
    if free (suc p) then (disk, ok (suc p)) else (disk, err (occupied (suc p)))

unfoldable pub bind_endpoint :
    (ℕ → Bool) → Io ℕ → ℕ → EndpointDisk → EndpointDisk × Result BindError ℕ
unfolding load_endpoint_port bind_known
bind_endpoint free io start disk = elim (load_endpoint_port disk) [
  | err e ↦ (disk, err (port_unknown e))
  | ok port ↦ bind_known free io start disk port
]
