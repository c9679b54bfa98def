-- ===== src/Console/Ids.antt =====
-- apps/web/src/lib/id.ts. A Uint8Array of 16 bytes is a function of the index.
pub mod Laws
use payments_processor.Common.{
  ℕ, zero, suc, ◌+◌, ◌-◌, ◌*◌, ◌/◌, ◌%◌, Option, none, some, [], ◌∷◌, ◌++◌, ltb, ◌==◌,
  if◌then◌else◌,
}
use payments_processor.Shared.Money.{Text, pad_start}

-- b[i] = x
abbrev pub set_byte : ℕ → ℕ → (ℕ → ℕ) → ℕ → ℕ
set_byte i x b j = if j == i then x else b j

abbrev pub hex_digit : ℕ → ℕ
hex_digit n = if ltb n 10 then b'0' + n else b'a' + (n - 10)

-- x.toString(16).padStart(2, '0'), for a byte.
unfoldable pub hex : ℕ → Text
hex x =
    pad_start (if ltb x 16 then hex_digit x ∷ [] else hex_digit (x / 16) ∷ hex_digit (x % 16) ∷ [])

-- The bytes with the version, (b[6] & 0x0f) | 0x40, and the variant, (b[8] & 0x3f) | 0x80. The bits
-- that are set are none of those that are kept.
abbrev pub marked_bytes : (ℕ → ℕ) → ℕ → ℕ
marked_bytes b =
    let versioned = set_byte 6 (b 6 % 16 + 64) b in set_byte 8 (versioned 8 % 64 + 128) versioned

-- The template of the result.
unfoldable pub uuid_text : (ℕ → Text) → Text
uuid_text h =
    h 0
    ++ (h 1
        ++ (h 2
            ++ (h 3
                ++ (b'-'
                    ∷ (h 4
                        ++ (h 5
                            ++ (b'-'
                                ∷ (h 6
                                    ++ (h 7
                                        ++ (b'-'
                                            ∷ (h 8
                                                ++ (h 9
                                                    ++ (b'-'
                                                        ∷ (h 10
                                                            ++ (h 11
                                                            ++ (h 12
                                                            ++ (h 13
                                                            ++ (h 14 ++ h 15))))))))))))))))))

abbrev filled : (ℕ → ℕ) → Text
filled b = let m = marked_bytes b in uuid_text (λ i. hex (m i))

-- `randomId`, where `crypto.randomUUID` is there or not, with what `crypto.getRandomValues` fills in.
unfoldable pub random_id : Option Text → (ℕ → ℕ) → Text
unfolding uuid_text
random_id (some uuid) b = uuid
random_id none b = filled b
