-- ===== src/Tests/Records.antt =====
-- The kernel's event records at concrete inputs, in the layout of a little-endian machine.
use watchbound.Base.{
  List, map, All, ◌++◌, ℕ, ◌+◌, ◌-◌, ◌*◌, ◌/◌, ◌%◌, ◌^◌, ◌<◌, ◌≡◌, refl, [], ◌∷◌, none, some, arith,
}
use watchbound.Records.{Header, cleared, read_events}
use watchbound.Records.Written.{
  Written, padded, zeros, IsHeader, IsWritten, write_all, parsed, read_events-write,
}
use watchbound.Tests.Watches.{hub}

-- The 16 bytes of `inotify_event` on a little-endian machine.
abbrev little_endian : ℕ → List ℕ
little_endian n = n % 256 ∷ n / 256 % 256 ∷ n / 65536 % 256 ∷ n / 16777216 ∷ []

abbrev word : ℕ → ℕ → ℕ → ℕ → ℕ
word a b c d = a + 256 * b + 65536 * c + 16777216 * d

little_endian-word :
    (n : ℕ) → n < 2 ^ 32 → word (n % 256) (n / 256 % 256) (n / 65536 % 256) (n / 16777216) ≡ n
little_endian-word n h = omega arith

abbrev write_header : Header → ℕ → List ℕ
write_header k cookie =
    little_endian k.wd ++ (little_endian k.mask ++ (little_endian cookie ++ little_endian k.len))

abbrev read_header : List ℕ → Header
read_header (a ∷ b ∷ c ∷ d ∷ e ∷ f ∷ g ∷ h ∷ i ∷ j ∷ k ∷ l ∷ m ∷ n ∷ o ∷ p ∷ rest) = record {
  wd = word a b c d;
  mask = word e f g h;
  len = word m n o p;
}
read_header _ = record { wd = 0; mask = 0; len = 0 }

read_header-write_header :
    (k : Header) (cookie : ℕ) (rest : List ℕ)
    → IsHeader k cookie
    → read_header (write_header k cookie ++ rest) ≡ k
read_header-write_header k cookie rest v =
    rw (little_endian-word k.wd v.0, little_endian-word k.mask v.1, little_endian-word k.len v.3)
      refl

-- An event with a name, one without, and an overflow record, whose descriptor is -1.
abbrev events : List Written
events =
    record { wd = 3; mask = 256; cookie = 0; name = some (115 ∷ []); padding = 14 }
    ∷ record { wd = 4; mask = 1024; cookie = 7; name = none; padding = 0 }
    ∷ record { wd = 2 ^ 32 - 1; mask = 16384; cookie = 0; name = none; padding = 0 }
    ∷ []

events-IsWritten : All IsWritten events
unfolding padded zeros
events-IsWritten = (((refl, tt), omega arith), ((tt, omega arith), ((tt, omega arith), tt)))

read_events-write_example :
    read_events 16 read_header 4 30 hub (record {
      pending_native = write_all 16 read_header write_header events;
      pending_native_offset = 0;
    })
    ≡ (hub, cleared, map parsed events)
read_events-write_example =
    read_events-write 16 read_header write_header (λ k cookie v. refl) read_header-write_header
      (omega arith) 30 hub events events-IsWritten
