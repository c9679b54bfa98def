-- ===== src/Console/Ids/Laws.antt =====
-- The texts of apps/web/src/lib/id.ts, read again.
use payments_processor.Common.{
  ℕ, ◌+◌, ◌-◌, ◌*◌, ◌/◌, ◌%◌, ◌<◌, ◌≡◌, ◌≢◌, refl, Option, none, some, List, [], ◌∷◌, ◌++◌, arith,
  leb, ◌==◌, ◌&&◌, if◌then◌else◌,
}
use payments_processor.Console.Ids.{hex_digit, hex, marked_bytes, uuid_text, random_id}
use payments_processor.Shared.Money.{Text, pad_start}

-- A text of a UUID: pairs of hexadecimal digits in lower case, and dashes.
pub data Piece : Type 0 where
  byte dash : Piece

abbrev pub uuid_shape : List Piece
uuid_shape =
    byte ∷ byte ∷ byte ∷ byte ∷ dash ∷ byte ∷ byte ∷ dash ∷ byte ∷ byte ∷ dash ∷ byte ∷ byte ∷ dash
    ∷ byte ∷ byte ∷ byte ∷ byte ∷ byte ∷ byte ∷ []

abbrev read_digit : ℕ → Option ℕ
read_digit c =
    if leb b'0' c && leb c b'9'
    then some (c - b'0')
    else if leb b'a' c && leb c b'f'
    then some (c - b'a' + 10)
    else none

abbrev pair : Option ℕ → Option ℕ → Option (List ℕ) → Option (List ℕ)
pair (some x) (some y) (some ns) = some ((x * 16 + y) ∷ ns)
pair _ _ _ = none

-- The bytes of a text of the shape.
unfoldable pub read_bytes : List Piece → Text → Option (List ℕ)
read_bytes [] [] = some []
read_bytes (byte ∷ ps) (x ∷ y ∷ cs) = pair (read_digit x) (read_digit y) (read_bytes ps cs)
read_bytes (dash ∷ ps) (c ∷ cs) = let rest = read_bytes ps cs in if c == b'-' then rest else none
read_bytes _ _ = none

read_digit-hex_digit : (n : ℕ) → n < 16 → read_digit (hex_digit n) ≡ some n
read_digit-hex_digit n h = ground arith

hex-eq : (n : ℕ) → n < 256 → hex n ≡ hex_digit (n / 16) ∷ hex_digit (n % 16) ∷ []
unfolding hex pad_start
hex-eq n h = ground arith

abbrev cons_byte : ℕ → Option (List ℕ) → Option (List ℕ)
cons_byte n none = none
cons_byte n (some ns) = some (n ∷ ns)

cons_byte-pair :
    (n : ℕ) (rest : Option (List ℕ)) → pair (some (n / 16)) (some (n % 16)) rest ≡ cons_byte n rest
cons_byte-pair n none = refl
cons_byte-pair n (some ns) = let whole : n / 16 * 16 + n % 16 ≡ n = omega arith in rw whole

read_bytes-hex :
    (n : ℕ) (ps : List Piece) (cs : Text)
    → n < 256
    → read_bytes (byte ∷ ps) (hex n ++ cs) ≡ cons_byte n (read_bytes ps cs)
unfolding read_bytes
read_bytes-hex n ps cs h =
    rw
      (
        hex-eq n h,
        read_digit-hex_digit (n / 16) (omega arith),
        read_digit-hex_digit (n % 16) (omega arith),
      )
      (cons_byte-pair n (read_bytes ps cs))

read_bytes-last : (n : ℕ) → n < 256 → read_bytes (byte ∷ []) (hex n) ≡ some (n ∷ [])
unfolding read_bytes
read_bytes-last n h =
    rw
      (
        hex-eq n h,
        read_digit-hex_digit (n / 16) (omega arith),
        read_digit-hex_digit (n % 16) (omega arith),
      )
      (cons_byte-pair n (some []))

read_bytes-dash :
    (ps : List Piece) (cs : Text) → read_bytes (dash ∷ ps) (b'-' ∷ cs) ≡ read_bytes ps cs
unfolding read_bytes
read_bytes-dash ps cs = refl

-- The sixteen bytes of an array.
abbrev pub sixteen : (ℕ → ℕ) → List ℕ
sixteen b =
    b 0
    ∷ b 1
    ∷ b 2
    ∷ b 3
    ∷ b 4
    ∷ b 5
    ∷ b 6
    ∷ b 7
    ∷ b 8
    ∷ b 9
    ∷ b 10
    ∷ b 11
    ∷ b 12
    ∷ b 13
    ∷ b 14
    ∷ b 15
    ∷ []

read_bytes-uuid_text :
    (b : ℕ → ℕ)
    → ((i : ℕ) → b i < 256)
    → read_bytes uuid_shape (uuid_text (λ i. hex (b i))) ≡ some (sixteen b)
unfolding uuid_text
read_bytes-uuid_text b h = rw (
  read_bytes-hex (b 0) _ _ (h 0),
  read_bytes-hex (b 1) _ _ (h 1),
  read_bytes-hex (b 2) _ _ (h 2),
  read_bytes-hex (b 3) _ _ (h 3),
  read_bytes-dash,
  read_bytes-hex (b 4) _ _ (h 4),
  read_bytes-hex (b 5) _ _ (h 5),
  read_bytes-dash,
  read_bytes-hex (b 6) _ _ (h 6),
  read_bytes-hex (b 7) _ _ (h 7),
  read_bytes-dash,
  read_bytes-hex (b 8) _ _ (h 8),
  read_bytes-hex (b 9) _ _ (h 9),
  read_bytes-dash,
  read_bytes-hex (b 10) _ _ (h 10),
  read_bytes-hex (b 11) _ _ (h 11),
  read_bytes-hex (b 12) _ _ (h 12),
  read_bytes-hex (b 13) _ _ (h 13),
  read_bytes-hex (b 14) _ _ (h 14),
  read_bytes-last (b 15) (h 15),
)

marked_bytes-lt : (b : ℕ → ℕ) (i : ℕ) → ((j : ℕ) → b j < 256) → marked_bytes b i < 256
marked_bytes-lt b i h = ground (arith, h i, h 6, h 8)

-- Without `crypto.randomUUID`, the text made of any sixteen bytes has the shape of a UUID in lower
-- case, and read again it gives the bytes but for the marks: its version is 4, its variant is the
-- bits 10, and every other bit is the one that was filled in.
pub read_bytes-random_id :
    (b : ℕ → ℕ)
    → ((i : ℕ) → b i < 256)
    → (m : ℕ → ℕ) × (read_bytes uuid_shape (random_id none b) ≡ some (sixteen m))
      × (m 6 / 16 ≡ 4)
      × (m 6 % 16 ≡ b 6 % 16)
      × (m 8 / 64 ≡ 2)
      × (m 8 % 64 ≡ b 8 % 64)
      × ((i : ℕ) → i ≢ 6 → i ≢ 8 → m i ≡ b i)
unfolding random_id
read_bytes-random_id b h = (
  marked_bytes b,
  read_bytes-uuid_text (marked_bytes b) (λ i. marked_bytes-lt b i h),
  omega arith,
  omega arith,
  omega arith,
  omega arith,
  λ i p q. ground arith,
)
