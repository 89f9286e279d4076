-- ===== src/Routing/Wrapped.antt =====
-- `RoutedRoom` as a `Room`: it passes everything through, and labels what `pause` gives.
use keycard.Prelude.{String, Result, ok, err}
use keycard.Rooms.{Room}
use keycard.Routing.{Routed}

-- `RoutedKept(self.backend_name, …)`
abbrev label : {S K : Type 0} → String → Result K × S → Result (Routed K) × S
label name (r, s) =
    (elim r [ err e ↦ err e | ok kept ↦ ok (record { backend_name = name; inner = kept }) ], s)

abbrev pub routed_room : {S K R D P : Type 0} → String → Room S K R D P → Room S (Routed K) R D P
routed_room name inner = record {
  can_pause = inner.can_pause;
  read = inner.read;
  write = inner.write;
  resize = inner.resize;
  destroy = inner.destroy;
  pause = λ p s. label name (inner.pause p s);
}
