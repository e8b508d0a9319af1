-- ===== src/Text/Utf8.antt =====
-- unicode/utf8 and strings.TrimSpace on byte strings, as far as the queue uses them.
use zatca_integration.Common.{
  ℕ, zero, suc, ◌+◌, ◌*◌, ◌%◌, ◌≤◌, ◌<◌, ◌≡◌, ◌≢◌, refl, ap, ◌∙◌, Bool, true, false, ◌&&◌, ◌||◌,
  List, [], ◌∷◌, ◌++◌, ltb, leb, ◌==◌, if◌then◌else◌, arith, length, take, All, all,
}

-- One step of `for _, r := range s`. A byte that starts no rune is a broken rune of one byte, which
-- Go shows as U+FFFD.
pub record Rune : Type 0 where
  pub value : ℕ
  pub is_valid : Bool
  pub bytes : List ℕ

abbrev in_range : ℕ → ℕ → ℕ → Bool
in_range lo hi b = leb lo b && leb b hi

abbrev is_continuation : ℕ → Bool
is_continuation = in_range 0x80 0xBF

abbrev nth : List ℕ → ℕ → ℕ
nth [] i = 0
nth (b ∷ bs) zero = b
nth (b ∷ bs) (suc i) = nth bs i

-- the bounds of the byte after `b`, by the table of Unicode
second_ok : ℕ → ℕ → Bool
second_ok b c =
    if b == 0xE0
    then in_range 0xA0 0xBF c
    else if b == 0xED
    then in_range 0x80 0x9F c
    else if b == 0xF0
    then in_range 0x90 0xBF c
    else if b == 0xF4
    then in_range 0x80 0x8F c
    else is_continuation c

pub data Width : Type 0 where
  one two three four broken : Width

-- What the byte `b` begins, before the bytes of `rest`.
width : ℕ → List ℕ → Width
width b rest =
    let c1 = nth rest 0 in
    let c2 = nth rest 1 in
    let c3 = nth rest 2 in
    if ltb b 0x80
    then one
    else if in_range 0xC2 0xDF b && is_continuation c1
    then two
    else if in_range 0xE0 0xEF b && second_ok b c1 && is_continuation c2
    then three
    else if in_range 0xF0 0xF4 b && second_ok b c1 && is_continuation c2 && is_continuation c3
    then four
    else broken

-- the bytes that follow the first
abbrev extra : Width → ℕ
extra one = 0
extra two = 1
extra three = 2
extra four = 3
extra broken = 0

abbrev rune_of : Width → ℕ → List ℕ → Rune
rune_of one b rest = record { value = b; is_valid = true; bytes = b ∷ [] }
rune_of two b rest =
    let c1 = nth rest 0 in
    record { value = b % 32 * 64 + c1 % 64; is_valid = true; bytes = b ∷ c1 ∷ [] }
rune_of three b rest =
    let c1 = nth rest 0 in
    let c2 = nth rest 1 in
    record {
      value = b % 16 * 4096 + c1 % 64 * 64 + c2 % 64;
      is_valid = true;
      bytes = b ∷ c1 ∷ c2 ∷ [];
    }
rune_of four b rest =
    let c1 = nth rest 0 in
    let c2 = nth rest 1 in
    let c3 = nth rest 2 in
    record {
      value = b % 8 * 262144 + c1 % 64 * 4096 + c2 % 64 * 64 + c3 % 64;
      is_valid = true;
      bytes = b ∷ c1 ∷ c2 ∷ c3 ∷ [];
    }
rune_of broken b rest = record { value = 0xFFFD; is_valid = false; bytes = b ∷ [] }

-- utf8.DecodeRune: the rune at the head of `b ∷ rest`.
decode_rune : ℕ → List ℕ → Rune × ℕ
unfolding width second_ok
decode_rune b rest = let w = width b rest in (rune_of w b rest, extra w)

-- The runes of a text whose first bytes, as many as the number says, belong to the rune before.
runes_after : ℕ → List ℕ → List Rune
runes_after n [] = []
runes_after zero (b ∷ rest) = let (r, extra) = decode_rune b rest in r ∷ runes_after extra rest
runes_after (suc n) (b ∷ rest) = runes_after n rest

pub runes : List ℕ → List Rune
unfolding runes_after decode_rune
runes = runes_after 0

-- utf8.ValidString
unfoldable pub valid_string : List ℕ → Bool
unfolding runes
valid_string s = all (λ r. r.is_valid) (runes s)

-- utf8.RuneCountInString
unfoldable pub rune_count : List ℕ → ℕ
unfolding runes
rune_count s = length (runes s)

-- unicode.IsSpace
is_space : Rune → Bool
is_space r =
    in_range 0x09 0x0D r.value
    || r.value == 0x20
    || r.value == 0x85
    || r.value == 0xA0
    || r.value == 0x1680
    || in_range 0x2000 0x200A r.value
    || r.value == 0x2028
    || r.value == 0x2029
    || r.value == 0x202F
    || r.value == 0x205F
    || r.value == 0x3000

trim_left : List Rune → List Rune
trim_left [] = []
trim_left (r ∷ rs) = if is_space r then trim_left rs else r ∷ rs

abbrev cons_unless_blank : Rune → List Rune → List Rune
cons_unless_blank r [] = if is_space r then [] else r ∷ []
cons_unless_blank r (q ∷ qs) = r ∷ q ∷ qs

trim_right : List Rune → List Rune
trim_right [] = []
trim_right (r ∷ rs) = cons_unless_blank r (trim_right rs)

bytes_of : List Rune → List ℕ
bytes_of [] = []
bytes_of (r ∷ rs) = r.bytes ++ bytes_of rs

-- strings.TrimSpace
unfoldable pub trim_space : List ℕ → List ℕ
unfolding runes is_space trim_left trim_right bytes_of
trim_space s = bytes_of (trim_right (trim_left (runes s)))

-- the bytes of a rune in a []rune that is turned back into a string
abbrev encoded : Rune → List ℕ
encoded r = if r.is_valid then r.bytes else 0xEF ∷ 0xBF ∷ 0xBD ∷ []

encode_runes : List Rune → List ℕ
encode_runes [] = []
encode_runes (r ∷ rs) = encoded r ++ encode_runes rs

-- truncate of queue/sql.go: at most `n` runes
unfoldable pub truncate : List ℕ → ℕ → List ℕ
unfolding runes encode_runes
truncate s n = let rs = runes s in if leb (length rs) n then s else encode_runes (take n rs)

-- a test of every `r` in `range s`
unfoldable pub every_rune : (ℕ → Bool) → List ℕ → Bool
unfolding runes
every_rune p s = all (λ r. p r.value) (runes s)

-- The first `n` bytes are there and are no ASCII bytes.
abbrev High : ℕ → List ℕ → Type 0
High zero s = Unit {0}
High (suc n) [] = ⊥
High (suc n) (b ∷ s) = (0x80 ≤ b) × High n s

second_ok-high : (b c : ℕ) → second_ok b c ≡ true → 0x80 ≤ c
unfolding second_ok
second_ok-high b c h = ground arith

High-one : (s : List ℕ) → 0x80 ≤ nth s 0 → High 1 s
High-one [] h = absurd (omega arith)
High-one (c ∷ s) h = (h, tt)

High-two : (s : List ℕ) → 0x80 ≤ nth s 0 → 0x80 ≤ nth s 1 → High 2 s
High-two [] h k = absurd (omega arith)
High-two (c ∷ s) h k = (h, High-one s k)

High-three : (s : List ℕ) → 0x80 ≤ nth s 0 → 0x80 ≤ nth s 1 → 0x80 ≤ nth s 2 → High 3 s
High-three [] h k l = absurd (omega arith)
High-three (c ∷ s) h k l = (h, High-two s k l)

-- What each width says of the bytes that it covers.
abbrev Covers : Width → ℕ → List ℕ → Type 0
Covers one b s = b < 0x80
Covers two b s = (0x80 ≤ b) × (0x80 ≤ nth s 0)
Covers three b s = (0x80 ≤ b) × (0x80 ≤ nth s 0) × (0x80 ≤ nth s 1)
Covers four b s = (0x80 ≤ b) × (0x80 ≤ nth s 0) × (0x80 ≤ nth s 1) × (0x80 ≤ nth s 2)
Covers broken b s = 0x80 ≤ b

width-Covers : (b : ℕ) (s : List ℕ) → Covers (width b s) b s
unfolding width
width-Covers b s = ground (arith, second_ok-high b (nth s 0))

Covers-High : (w : Width) (b : ℕ) (s : List ℕ) → Covers w b s → High (extra w) s
Covers-High one b s h = tt
Covers-High two b s h = High-one s h.1
Covers-High three b s h = High-two s h.1 h.2
Covers-High four b s h = High-three s h.1 h.2 h.3
Covers-High broken b s h = tt

decode_rune-High : (b : ℕ) (rest : List ℕ) → High (decode_rune b rest).1 rest
unfolding decode_rune
decode_rune-High b rest = Covers-High (width b rest) b rest (width-Covers b rest)

rune_of_ascii :
    (w : Width) (b : ℕ) (s : List ℕ) → Covers w b s → b < 0x80 → (rune_of w b s).value ≡ b
rune_of_ascii one b s h k = refl
rune_of_ascii _ b s h k = absurd (omega arith)

decode_rune_ascii : (b : ℕ) (rest : List ℕ) → b < 0x80 → (decode_rune b rest).0.value ≡ b
unfolding decode_rune
decode_rune_ascii b rest h = rune_of_ascii (width b rest) b rest (width-Covers b rest) h

and_parts : (a b : Bool) → (a && b) ≡ true → (a ≡ true) × (b ≡ true)
and_parts a b h = ground arith

module _ (p : ℕ → Bool) (c : ℕ) (ascii : c < 0x80) (refused : p c ≡ false) where
  runes_after_excludes :
      (n : ℕ) (s : List ℕ)
      → High n s
      → all (λ r. p r.value) (runes_after n s) ≡ true
      → All (λ b. b ≢ c) s
  unfolding runes_after
  runes_after_excludes n [] h e = tt
  runes_after_excludes zero (b ∷ rest) h e =
      let (pass, later) = and_parts (p (decode_rune b rest).0.value) _ e in
      (
        λ q.
            let value = decode_rune_ascii b rest (omega arith) ∙ q in
            cc (ap p value, refused, pass),
        runes_after_excludes (decode_rune b rest).1 rest (decode_rune-High b rest) later,
      )
  runes_after_excludes (suc n) (b ∷ rest) h e =
      ((λ q. omega arith), runes_after_excludes n rest h.1 e)

  -- An ASCII byte that the test refuses does not stand in a text whose runes all pass it.
  pub every_rune_excludes : (s : List ℕ) → every_rune p s ≡ true → All (λ b. b ≢ c) s
  unfolding every_rune runes
  every_rune_excludes s e = runes_after_excludes 0 s tt e
