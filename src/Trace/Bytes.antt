-- ===== src/Trace/Bytes.antt =====
-- The bytes of fields, entries and names, read back.
use native.Mathlib.Nat.{pow-suc}
use cyros.Common.{
  ℕ, zero, suc, ◌+◌, ◌*◌, ◌/◌, ◌^◌, ◌≤◌, ◌<◌, ◌≡◌, refl, ap, ◌∙◌, some, List, [], ◌∷◌, ◌++◌, arith,
  length, append_assoc,
}
use cyros.Trace.Stream.{Entry, little_endian, cut, entry_bytes, entries_bytes}
use cyros.Trace.Decode.{Record, unpack, unpack_entry, unpack_entries, skip}

pub length-append : {A : Type 0} (xs ys : List A) → length (xs ++ ys) ≡ length xs + length ys
length-append [] ys = omega arith
length-append (x ∷ xs) ys = omega (arith, length-append xs ys)

pub unpack-little_endian :
    (width value : ℕ) (rest : List ℕ)
    → value < 256 ^ width
    → unpack width (little_endian width value ++ rest) ≡ some (value, rest)
unfolding unpack little_endian
unpack-little_endian zero value rest h = ground arith
unpack-little_endian (suc width) value rest h =
    rw (unpack-little_endian width (value / 256) rest (omega (arith, pow-suc 256 width)))
      (ground arith)

pub unpacked :
    (width value : ℕ) (more rest : List ℕ)
    → value < 256 ^ width
    → unpack width ((little_endian width value ++ more) ++ rest) ≡ some (value, more ++ rest)
unpacked width value more rest h =
    ap (unpack width) (append_assoc (little_endian width value) more rest)
    ∙ unpack-little_endian width value (more ++ rest) h

pub length-little_endian : (width value : ℕ) → length (little_endian width value) ≡ width
unfolding little_endian
length-little_endian zero value = refl
length-little_endian (suc width) value = ap suc (length-little_endian width (value / 256))

-- Each field of an entry fits its width.
pub record Fits (r : Entry) : Type 0 where
  pub timestamp : r.timestamp < 2 ^ 64
  pub object : r.object < 2 ^ 64
  pub thread : r.thread < 2 ^ 32
  pub what : r.what < 256
  pub core : r.core < 256
  pub priority : r.priority < 256
  pub reserved : r.reserved < 256

abbrev pub AllFit : List Entry → Type 0
AllFit [] = Unit {0}
AllFit (r ∷ rs) = Fits r × AllFit rs

-- What the tool shows of an entry, and of those of a packet.
abbrev pub shown : (recorded_on index : ℕ) → Entry → Record
shown recorded_on index r = record {
  timestamp = r.timestamp;
  object = r.object;
  thread = r.thread;
  event = r.what;
  core = r.core;
  priority = r.priority;
  recorded_on = recorded_on;
  index = index;
}

abbrev pub all_shown : (recorded_on index : ℕ) → List Entry → List Record
all_shown recorded_on index [] = []
all_shown recorded_on index (r ∷ rs) =
    shown recorded_on index r ∷ all_shown recorded_on (index + 1) rs

unpack_entry-bytes :
    (on i : ℕ) (r : Entry) (rest : List ℕ)
    → Fits r
    → unpack_entry on i (entry_bytes r ++ rest) ≡ some (shown on i r, rest)
unfolding unpack_entry entry_bytes
unpack_entry-bytes on i r rest f =
    rw
      (
        unpacked 8 r.timestamp _ rest f.timestamp,
        unpacked 8 r.object _ rest f.object,
        unpacked 4 r.thread _ rest f.thread,
        unpacked 1 r.what _ rest f.what,
        unpacked 1 r.core _ rest f.core,
        unpacked 1 r.priority _ rest f.priority,
        unpack-little_endian 1 r.reserved rest f.reserved,
      )
      refl

length-entry_bytes : (r : Entry) → length (entry_bytes r) ≡ 24
unfolding entry_bytes little_endian
length-entry_bytes r = refl

pub unpack_entries-bytes :
    (on i : ℕ) (rs : List Entry)
    → AllFit rs
    → unpack_entries (length rs) on i (entries_bytes rs) ≡ some (all_shown on i rs)
unfolding unpack_entries entries_bytes
unpack_entries-bytes on i [] f = refl
unpack_entries-bytes on i (r ∷ rs) (f, fs) =
    rw (unpack_entry-bytes on i r (entries_bytes rs) f, unpack_entries-bytes on (i + 1) rs fs) refl

pub length-entries_bytes : (rs : List Entry) → length (entries_bytes rs) ≡ length rs * 24
unfolding entries_bytes
length-entries_bytes [] = refl
length-entries_bytes (r ∷ rs) = omega (
  arith,
  length-append (entry_bytes r) (entries_bytes rs),
  length-entry_bytes r,
  length-entries_bytes rs,
)

pub length-cut : (room : ℕ) (bytes : List ℕ) → length (cut room bytes) ≤ room
unfolding cut
length-cut zero bytes = omega arith
length-cut (suc room) [] = omega arith
length-cut (suc room) (b ∷ bytes) = omega (arith, length-cut room bytes)

pub cut-append : (xs ys : List ℕ) → cut (length xs) (xs ++ ys) ≡ xs
unfolding cut
cut-append [] ys = refl
cut-append (x ∷ xs) ys = ap (λ (l : List ℕ). x ∷ l) (cut-append xs ys)

pub skip-append : (xs ys : List ℕ) → skip (length xs) (xs ++ ys) ≡ ys
skip-append [] ys = refl
skip-append (x ∷ xs) ys = skip-append xs ys

-- The first bytes of a name, at most `n`.
abbrev pub first_bytes : ℕ → List ℕ → List ℕ
first_bytes zero name = []
first_bytes (suc n) [] = []
first_bytes (suc n) (b ∷ name) = b ∷ first_bytes n name

pub cut-first_bytes : (n : ℕ) (name : List ℕ) → cut n name ≡ first_bytes n name
unfolding cut
cut-first_bytes zero name = refl
cut-first_bytes (suc n) [] = refl
cut-first_bytes (suc n) (b ∷ name) = ap (λ (l : List ℕ). b ∷ l) (cut-first_bytes n name)
