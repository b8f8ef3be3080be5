-- ===== src/Records.antt =====
-- The kernel's event records (engine/src/backend/linux.rs): `next_native_event`. The layout of
-- `inotify_event` is the platform's: its size and the reading of a header are arguments.
pub mod Written
use watchbound.Base.{
  ℕ, zero, suc, ◌+◌, List, [], ◌∷◌, ◌++◌, Bool, true, false, Option, none, some, if◌then◌else◌,
  length, leb, ltb, ◌==◌,
}
use watchbound.Types.{topology_race}
use watchbound.Worker.Hub.{Hub}
use watchbound.Worker.Ignored.{mark_all_uncertain}

-- What the engine reads of a header, an i32 and two u32: `wd` is the bit pattern of the i32, so an
-- overflow record's -1 is 2 ^ 32 - 1; `len` is the length of the name that follows, padded. The
-- cookie is not read.
pub record Header : Type 0 where
  pub wd : ℕ
  pub mask : ℕ
  pub len : ℕ

pub record ParsedEvent : Type 0 where
  pub descriptor : ℕ
  pub mask : ℕ
  pub name : Option (List ℕ)

pub record Reader : Type 0 where
  pub pending_native : List ℕ
  pub pending_native_offset : ℕ

unfoldable pub drop : ℕ → List ℕ → List ℕ
drop zero bytes = bytes
drop (suc n) [] = []
drop (suc n) (b ∷ bytes) = drop n bytes

unfoldable pub take : ℕ → List ℕ → List ℕ
take zero bytes = []
take (suc n) [] = []
take (suc n) (b ∷ bytes) = b ∷ take n bytes

-- The bytes before the first NUL.
unfoldable pub until_nul : List ℕ → List ℕ
until_nul [] = []
until_nul (b ∷ bytes) = let rest = until_nul bytes in if b == 0 then [] else b ∷ rest

abbrev pub cleared : Reader
cleared = record { pending_native = []; pending_native_offset = 0 }

abbrev pub more :
    Hub × Reader
    → Hub × Reader
    → List ParsedEvent
    → Option ParsedEvent
    → Hub × Reader × List ParsedEvent
more (hub, r) (last, t) events none = (hub, r, [])
more (hub, r) (last, t) events (some e) = (last, t, e ∷ events)

module _ (header_size : ℕ) (read_header : List ℕ → Header) where
  unfoldable pub name_of : ℕ → List ℕ → Option (List ℕ)
  name_of len bytes =
      if len == 0 then none else some (until_nul (take len (drop header_size bytes)))

  -- The bounds are tested before the header and before the name is read. The saturating sum of a
  -- size and a u32 length is the sum.
  unfoldable pub next_native_event : ℕ → Hub → Reader → Hub × Reader × Option ParsedEvent
  next_native_event now h r =
      let available = length r.pending_native in
      let rest = drop r.pending_native_offset r.pending_native in
      let event = read_header rest in
      let event_size = header_size + event.len in
      if leb available r.pending_native_offset
      then (h, cleared, none)
      else if ltb available (r.pending_native_offset + header_size)
      then (mark_all_uncertain now topology_race h, cleared, none)
      else if ltb available (r.pending_native_offset + event_size)
      then (mark_all_uncertain now topology_race h, cleared, none)
      else (
        h,
        record r { pending_native_offset = r.pending_native_offset + event_size },
        some (record { descriptor = event.wd; mask = event.mask; name = name_of event.len rest }),
      )

  -- At most `n` events, one after the other.
  unfoldable pub read_events : ℕ → ℕ → Hub → Reader → Hub × Reader × List ParsedEvent
  read_events zero now h r = (h, r, [])
  read_events (suc n) now h r =
      let (hub, s, event) = next_native_event now h r in
      let (last, t, events) = read_events n now hub s in more (hub, s) (last, t) events event
