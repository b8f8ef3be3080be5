-- ===== src/Records/Written.antt =====
-- Events as the kernel writes them, and what is read of them.
use watchbound.Base.{
  map, append-nil, ℕ, ◌^◌, zero, suc, ◌+◌, ◌<◌, ◌≤◌, ◌≡◌, refl, sym, ap, ◌∙◌, List, [], ◌∷◌, ◌++◌,
  true, false, Option, none, some, length, leb, ltb, ◌==◌, arith, All, append_assoc,
}
use watchbound.Worker.Hub.{Hub}
use watchbound.Records.{
  more, cleared, Header, ParsedEvent, Reader, drop, take, until_nul, name_of, next_native_event,
  read_events,
}

unfoldable pub zeros : ℕ → List ℕ
zeros zero = []
zeros (suc n) = 0 ∷ zeros n

-- A name without NUL, which is followed by `padding` and a last NUL; or no name.
pub record Written : Type 0 where
  pub wd : ℕ
  pub mask : ℕ
  pub cookie : ℕ
  pub name : Option (List ℕ)
  pub padding : ℕ

unfoldable pub padded : Option (List ℕ) → ℕ → List ℕ
padded none padding = []
padded (some name) padding = name ++ zeros (suc padding)

abbrev pub NoNul : Option (List ℕ) → Type 0
NoNul none = Unit
NoNul (some name) = All (λ b. (b == 0) ≡ false) name

abbrev pub header_of : Written → Header
header_of e = record { wd = e.wd; mask = e.mask; len = length (padded e.name e.padding) }

-- The fields fit in their 32 bits.
abbrev pub IsHeader : Header → ℕ → Type 0
IsHeader k cookie = (k.wd < 2 ^ 32) × (k.mask < 2 ^ 32) × (cookie < 2 ^ 32) × (k.len < 2 ^ 32)

abbrev pub IsWritten : Written → Type 0
IsWritten e = NoNul e.name × IsHeader (header_of e) e.cookie

abbrev pub parsed : Written → ParsedEvent
parsed e = record { descriptor = e.wd; mask = e.mask; name = e.name }

drop-append : (xs ys : List ℕ) → drop (length xs) (xs ++ ys) ≡ ys
unfolding drop
drop-append [] ys = refl
drop-append (x ∷ xs) ys = drop-append xs ys

take-append : (xs ys : List ℕ) → take (length xs) (xs ++ ys) ≡ xs
unfolding take
take-append [] ys = refl
take-append (x ∷ xs) ys = ap (λ l. x ∷ l) (take-append xs ys)

length-append : (xs ys : List ℕ) → length (xs ++ ys) ≡ length xs + length ys
length-append [] ys = omega arith
length-append (x ∷ xs) ys = omega (arith, length-append xs ys)

until_nul-padded :
    (name : List ℕ) (n : ℕ)
    → All (λ b. (b == 0) ≡ false) name
    → until_nul (name ++ zeros (suc n)) ≡ name
unfolding until_nul zeros
until_nul-padded [] n h = refl
until_nul-padded (b ∷ name) n h = ground (arith, until_nul-padded name n h.1)

padded-some : (name : List ℕ) (n : ℕ) → (length (name ++ zeros (suc n)) == 0) ≡ false
unfolding zeros
padded-some [] n = ground arith
padded-some (b ∷ name) n = ground arith

leb-above : (a b : ℕ) → b < a → leb a b ≡ false
leb-above a b h = ground arith

leb-itself : (a : ℕ) → leb a a ≡ true
leb-itself a = ground arith

ltb-within : (a b : ℕ) → b ≤ a → ltb a b ≡ false
ltb-within a b h = ground arith

module _ (header_size : ℕ) (read_header : List ℕ → Header)
    (write_header : Header → ℕ → List ℕ) where
  unfoldable pub write : Written → List ℕ
  write e = write_header (header_of e) e.cookie ++ padded e.name e.padding

  unfoldable pub write_all : List Written → List ℕ
  write_all [] = []
  write_all (e ∷ es) = write e ++ write_all es

  module _
      (sized : (k : Header) (cookie : ℕ)
        → IsHeader k cookie
        → length (write_header k cookie) ≡ header_size)
      (reads : (k : Header) (cookie : ℕ) (rest : List ℕ)
        → IsHeader k cookie
        → read_header (write_header k cookie ++ rest) ≡ k) where
    name_of-padded :
        (name : Option (List ℕ)) (n : ℕ) (k : Header) (cookie : ℕ) (rest : List ℕ)
        → NoNul name
        → IsHeader k cookie
        → name_of header_size read_header
            (length (padded name n))
            (write_header k cookie ++ (padded name n ++ rest))
          ≡ name
    unfolding name_of padded
    name_of-padded none n k cookie rest h f = refl
    name_of-padded (some name) n k cookie rest h f =
        let p = name ++ zeros (suc n) in
        let d =
          ap (λ m. drop m (write_header k cookie ++ (p ++ rest))) (sym (sized k cookie f))
          ∙ drop-append (write_header k cookie) (p ++ rest) in
        rw (padded-some name n) (
          ap some (
            ap until_nul (ap (take (length p)) d ∙ take-append p rest) ∙ until_nul-padded name n h))

    next-read :
        (now : ℕ) (h : Hub) (bytes : List ℕ) (offset : ℕ) (rest : List ℕ) (k : Header)
        → drop offset bytes ≡ rest
        → read_header rest ≡ k
        → offset < length bytes
        → offset + (header_size + k.len) ≤ length bytes
        → next_native_event header_size read_header now h
            (record { pending_native = bytes; pending_native_offset = offset })
          ≡ (
            h,
            record {
              pending_native = bytes;
              pending_native_offset = offset + (header_size + k.len);
            },
            some (record {
              descriptor = k.wd;
              mask = k.mask;
              name = name_of header_size read_header k.len rest;
            }),
          )
    unfolding next_native_event
    next-read now h bytes offset rest k e f a b =
        let x = leb-above (length bytes) offset a in
        let y = ltb-within (length bytes) (offset + header_size) (omega (arith, b)) in
        let z = ltb-within (length bytes) (offset + (header_size + k.len)) b in
        rw (e, f, x, y, z) refl

    module _ (positive : 0 < header_size) where
      next_native_event-write :
          (now : ℕ) (h : Hub) (before : List ℕ) (e : Written) (after : List ℕ)
          → IsWritten e
          → next_native_event header_size read_header now h (record {
            pending_native = before ++ (write e ++ after);
            pending_native_offset = length before;
          })
            ≡ (
              h,
              record {
                pending_native = before ++ (write e ++ after);
                pending_native_offset = length (before ++ write e);
              },
              some (parsed e),
            )
      unfolding write
      next_native_event-write now h before e after v =
          let k = header_of e in
          let p = padded e.name e.padding in
          let rest = write_header k e.cookie ++ (p ++ after) in
          let whole = append_assoc (write_header k e.cookie) p after in
          let size = length-append before (write e ++ after) in
          let inner = length-append (write_header k e.cookie) p in
          let fixed = sized k e.cookie v.1 in
          let outer = length-append (write_header k e.cookie ++ p) after in
          let read =
            next-read now h (before ++ (write e ++ after)) (length before) rest k
              (drop-append before (write e ++ after) ∙ whole) (reads k e.cookie (p ++ after) v.1)
              (omega (arith, size, inner, outer, fixed, positive))
              (omega (arith, size, inner, outer, fixed)) in
          let made : ℕ → Option (List ℕ) → Hub × Reader × Option ParsedEvent = λ o m. (
            h,
            record { pending_native = before ++ (write e ++ after); pending_native_offset = o },
            some (record { descriptor = e.wd; mask = e.mask; name = m }),
          ) in
          read
          ∙ ap (λ o. made o (name_of header_size read_header k.len rest))
              (omega (arith, length-append before (write e), inner, fixed))
          ∙ ap (λ m. made (length (before ++ write e)) m)
              (name_of-padded e.name e.padding k e.cookie after v.0 v.1)

      next_native_event-end :
          (now : ℕ) (h : Hub) (bytes : List ℕ)
          → next_native_event header_size read_header now h
              (record { pending_native = bytes; pending_native_offset = length bytes })
            ≡ (h, cleared, none)
      unfolding next_native_event
      next_native_event-end now h bytes = rw (leb-itself (length bytes)) refl

      -- What `read_events` does with its first event.
      abbrev go_on : ℕ → ℕ → Hub × Reader × Option ParsedEvent → Hub × Reader × List ParsedEvent
      go_on n now (h, r, event) =
          let (last, t, events) = read_events header_size read_header n now h r in
          more (h, r) (last, t) events event

      read_from :
          (now : ℕ) (h : Hub) (before : List ℕ) (es : List Written)
          → All IsWritten es
          → read_events header_size read_header (suc (length es)) now h (record {
            pending_native = before ++ write_all es;
            pending_native_offset = length before;
          })
            ≡ (h, cleared, map parsed es)
      unfolding read_events write_all
      read_from now h before [] v =
          let bytes = before ++ [] in
          ap (go_on 0 now) (
            ap
              (λ b.
                next_native_event header_size read_header now h
                  (record { pending_native = bytes; pending_native_offset = length b }))
              (sym (append-nil before))
            ∙ next_native_event-end now h bytes)
      read_from now h before (e ∷ es) v =
          ap (go_on (suc (length es)) now)
            (next_native_event-write now h before e (write_all es) v.0)
          ∙ ap (λ (y : Hub × Reader × List ParsedEvent). (y.0, y.1, parsed e ∷ y.2))
              (ap
                  (λ b. read_events header_size read_header (suc (length es)) now h (record {
                    pending_native = b;
                    pending_native_offset = length (before ++ write e);
                  }))
                  (sym (append_assoc before (write e) (write_all es)))
                ∙ read_from now h (before ++ write e) es v.1)

      -- Where headers of 32-bit fields have one positive size, and reading one gives back what was
      -- written, the events that the kernel writes one after the other, of 32-bit fields and with names
      -- that hold no NUL, are read back in order with their names, whatever their cookies, and the buffer
      -- is then found empty, with no subscription marked uncertain.
      pub read_events-write :
          (now : ℕ) (h : Hub) (es : List Written)
          → All IsWritten es
          → read_events header_size read_header
              (suc (length es))
              now
              h
              (record { pending_native = write_all es; pending_native_offset = 0 })
            ≡ (h, cleared, map parsed es)
      read_events-write now h es v = read_from now h [] es v
