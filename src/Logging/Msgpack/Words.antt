-- ===== src/Logging/Msgpack/Words.antt =====
-- One number, size or text, written by the encoder and read by the reader.
use Prim.Native.Nat.{bit_or}
use haribon.Prelude.{
  ℕ, zero, suc, ◌+◌, ◌-◌, ◌*◌, ◌/◌, ◌%◌, ◌^◌, ◌<◌, ◌≡◌, refl, ap, ◌∙◌, Bool, true, ◌&&◌, some, List,
  [], ◌∷◌, ◌++◌, length, ltb, leb, ◌==◌, ==_iff, ℤ, pos, negsuc, arith, Bool-cases, inl, inr,
}
use native.Mathlib.Nat.{mod-eq_of_lt}
use haribon.Logging.Msgpack.Defs.{
  write_uint16, write_uint32, write_uint64, pack_array_header, pack_map_header, pack_string_header,
  pack_string, pack_uint, pack_int, pack_float64,
}
use haribon.Logging.Msgpack.Tokens.{
  Token, number, double, text, array_of, map_of, read_bytes, read_uint16, read_uint32, read_uint64,
  read_token, mapped, and_then, signed,
}

read-write_uint16 :
    (v : ℕ) (rest : List ℕ) → v < 2 ^ 16 → read_uint16 (write_uint16 v ++ rest) ≡ some (v, rest)
unfolding read_uint16 write_uint16
read-write_uint16 v rest h = ap (λ x. some (x, rest)) (omega arith)

read-write_uint32 :
    (v : ℕ) (rest : List ℕ) → v < 2 ^ 32 → read_uint32 (write_uint32 v ++ rest) ≡ some (v, rest)
unfolding read_uint32 write_uint32
read-write_uint32 v rest h = ap (λ x. some (x, rest)) (omega arith)

read-write_uint64 :
    (v : ℕ) (rest : List ℕ) → v < 2 ^ 64 → read_uint64 (write_uint64 v ++ rest) ≡ some (v, rest)
unfolding read_uint64 write_uint64
read-write_uint64 v rest h =
    let high : ℕ = v / 2 ^ 32 in
    let low : ℕ = v % 2 ^ 32 in
    ap
      (λ t.
        and_then t (λ a more. and_then (read_uint32 more) (λ b left. some (a * 2 ^ 32 + b, left))))
      (read-write_uint32 high (write_uint32 low ++ rest) (omega arith))
    ∙ ap (λ t. and_then t (λ b left. some (high * 2 ^ 32 + b, left)))
        (read-write_uint32 low rest (omega arith))
    ∙ ap (λ x. some (x, rest)) (omega arith)

read_bytes-append : (s rest : List ℕ) → read_bytes (length s) (s ++ rest) ≡ some (s, rest)
unfolding read_bytes
read_bytes-append [] rest = refl
read_bytes-append (b ∷ s) rest = rw (read_bytes-append s rest)

ors_are_sums : ℕ → ℕ → Bool
ors_are_sums tag zero = true
ors_are_sums tag (suc size) = (bit_or tag size == tag + size) && ors_are_sums tag size

-- A header byte whose low bits are free takes the length by `|` as by addition.
bit_or-add : (tag size n : ℕ) → ors_are_sums tag size ≡ true → n < size → bit_or tag n ≡ tag + n
unfolding ors_are_sums
bit_or-add tag zero n table h = absurd (omega arith)
bit_or-add tag (suc size) n table h = elim (Bool-cases (n == size)) [
  | inl last ↦ ground (arith, ==_iff n size)
  | inr other ↦ bit_or-add tag size n (ground arith) (ground (arith, ==_iff n size))
]

fixarray : (n : ℕ) → n < 16 → bit_or 0x90 n ≡ 0x90 + n
unfolding ors_are_sums
fixarray n h = bit_or-add 0x90 16 n refl h

fixmap : (n : ℕ) → n < 16 → bit_or 0x80 n ≡ 0x80 + n
unfolding ors_are_sums
fixmap n h = bit_or-add 0x80 16 n refl h

fixstr : (n : ℕ) → n < 32 → bit_or 0xa0 n ≡ 0xa0 + n
unfolding ors_are_sums
fixstr n h = bit_or-add 0xa0 32 n refl h

abbrev natural : ℕ → Token
natural v = number (pos v)

-- Every uint64 that packUint writes is read back, whatever follows it.
pub read-pack_uint :
    (v : ℕ) (rest : List ℕ)
    → v < 2 ^ 64
    → read_token (pack_uint v ++ rest) ≡ some (number (pos v), rest)
unfolding read_token pack_uint
read-pack_uint v rest h = elim (Bool-cases (ltb v 128)) [
  | inl tiny ↦ rw (tiny, pack_uint) (rw (tiny, read_token))
  | inr a ↦ elim (Bool-cases (leb v 255)) [
    | inl byte ↦ rw (a, byte, pack_uint)
    | inr b ↦ elim (Bool-cases (leb v 65535)) [
      | inl short ↦
          rw (a, b, short, pack_uint)
            (ap (mapped natural) (read-write_uint16 v rest (ground arith)))
      | inr c ↦ elim (Bool-cases (leb v 4294967295)) [
        | inl word ↦
            rw (a, b, c, word, pack_uint)
              (ap (mapped natural) (read-write_uint32 v rest (ground arith)))
        | inr d ↦ rw (a, b, c, d, pack_uint) (ap (mapped natural) (read-write_uint64 v rest h))
      ]
    ]
  ]
]

-- The range of an int64.
abbrev pub IsInt64 : ℤ → Type 0
IsInt64 (pos n) = n < 2 ^ 63
IsInt64 (negsuc n) = n < 2 ^ 63

abbrev integer : ℕ → ℕ → Token
integer modulus v = number (signed modulus v)

signed-negative : (m n : ℕ) → n + n + 1 < m → signed m (m - 1 - n) ≡ negsuc n
signed-negative m n h = ground arith

-- Every int64 that packInt writes is read back, whatever follows it.
pub read-pack_int :
    (z : ℤ) (rest : List ℕ) → IsInt64 z → read_token (pack_int z ++ rest) ≡ some (number z, rest)
unfolding read_token pack_int
read-pack_int (pos v) rest h = read-pack_uint v rest (omega arith)
read-pack_int (negsuc n) rest h = elim (Bool-cases (ltb n 32)) [
  | inl tiny ↦ rw (tiny, pack_int) (ground arith)
  | inr a ↦ elim (Bool-cases (ltb n 128)) [
    | inl byte ↦
        rw (a, byte, pack_int)
          (ap (λ x. some (number x, rest)) (signed-negative (2 ^ 8) n (ground arith)))
    | inr b ↦ elim (Bool-cases (ltb n 32768)) [
      | inl short ↦
          rw (a, b, short, pack_int)
            (ap (mapped (integer (2 ^ 16))) (read-write_uint16 (2 ^ 16 - 1 - n) rest (omega arith))
              ∙ ap (λ x. some (number x, rest)) (signed-negative (2 ^ 16) n (ground arith)))
      | inr c ↦ elim (Bool-cases (ltb n 2147483648)) [
        | inl word ↦
            rw (a, b, c, word, pack_int)
              (ap (mapped (integer (2 ^ 32)))
                  (read-write_uint32 (2 ^ 32 - 1 - n) rest (omega arith))
                ∙ ap (λ x. some (number x, rest)) (signed-negative (2 ^ 32) n (ground arith)))
        | inr d ↦
            rw (a, b, c, d, pack_int)
              (ap (mapped (integer (2 ^ 64)))
                  (read-write_uint64 (2 ^ 64 - 1 - n) rest (omega arith))
                ∙ ap (λ x. some (number x, rest)) (signed-negative (2 ^ 64) n (omega arith)))
      ]
    ]
  ]
]

pub read-pack_float64 :
    (bits : ℕ) (rest : List ℕ)
    → bits < 2 ^ 64
    → read_token (pack_float64 bits ++ rest) ≡ some (double bits, rest)
unfolding read_token pack_float64
read-pack_float64 bits rest h = ap (mapped double) (read-write_uint64 bits rest h)

pub read-pack_array_header :
    (n : ℕ) (rest : List ℕ)
    → n < 2 ^ 32
    → read_token (pack_array_header n ++ rest) ≡ some (array_of n, rest)
unfolding read_token pack_array_header
read-pack_array_header n rest h = elim (Bool-cases (ltb n 16)) [
  | inl tiny ↦ rw (tiny, pack_array_header) (rw (fixarray n (ground arith)) (ground arith))
  | inr a ↦ elim (Bool-cases (leb n 65535)) [
    | inl short ↦
        rw (a, short, pack_array_header)
          (ap (mapped array_of) (read-write_uint16 (n % 2 ^ 16) rest (omega arith))
            ∙ ap (λ x. some (array_of x, rest)) (mod-eq_of_lt (ground arith)))
    | inr b ↦
        rw (a, b, pack_array_header)
          (ap (mapped array_of) (read-write_uint32 (n % 2 ^ 32) rest (omega arith))
            ∙ ap (λ x. some (array_of x, rest)) (mod-eq_of_lt h))
  ]
]

pub read-pack_map_header :
    (n : ℕ) (rest : List ℕ)
    → n < 2 ^ 32
    → read_token (pack_map_header n ++ rest) ≡ some (map_of n, rest)
unfolding read_token pack_map_header
read-pack_map_header n rest h = elim (Bool-cases (ltb n 16)) [
  | inl tiny ↦ rw (tiny, pack_map_header) (rw (fixmap n (ground arith)) (ground arith))
  | inr a ↦ elim (Bool-cases (leb n 65535)) [
    | inl short ↦
        rw (a, short, pack_map_header)
          (ap (mapped map_of) (read-write_uint16 (n % 2 ^ 16) rest (omega arith))
            ∙ ap (λ x. some (map_of x, rest)) (mod-eq_of_lt (ground arith)))
    | inr b ↦
        rw (a, b, pack_map_header)
          (ap (mapped map_of) (read-write_uint32 (n % 2 ^ 32) rest (omega arith))
            ∙ ap (λ x. some (map_of x, rest)) (mod-eq_of_lt h))
  ]
]

text_after :
    (s rest : List ℕ) (n : ℕ)
    → n ≡ length s
    → mapped text (read_bytes n (s ++ rest)) ≡ some (text s, rest)
text_after s rest n e = rw (e, read_bytes-append s rest)

-- Every string of fewer than 2^32 bytes that packString writes is read back, whatever follows it.
pub read-pack_string :
    (s rest : List ℕ) → length s < 2 ^ 32 → read_token (pack_string s ++ rest) ≡ some (text s, rest)
unfolding read_token pack_string
read-pack_string s rest h =
    let n : ℕ = length s in
    elim (Bool-cases (ltb n 32)) [
      | inl tiny ↦
          rw (tiny, pack_string_header)
            (rw (fixstr n (ground arith))
              (ground (arith, text_after s rest (160 + n - 160) (omega arith))))
      | inr a ↦ elim (Bool-cases (leb n 255)) [
        | inl byte ↦
            rw (a, byte, pack_string_header)
              (text_after s rest (n % 2 ^ 8) (mod-eq_of_lt (ground arith)))
        | inr b ↦ elim (Bool-cases (leb n 65535)) [
          | inl short ↦
              rw (a, b, short, pack_string_header)
                (ap (λ t. and_then t (λ k more. mapped text (read_bytes k more)))
                    (read-write_uint16 (n % 2 ^ 16) (s ++ rest) (omega arith))
                  ∙ text_after s rest (n % 2 ^ 16) (mod-eq_of_lt (ground arith)))
          | inr c ↦
              rw (a, b, c, pack_string_header)
                (ap (λ t. and_then t (λ k more. mapped text (read_bytes k more)))
                    (read-write_uint32 (n % 2 ^ 32) (s ++ rest) (omega arith))
                  ∙ text_after s rest (n % 2 ^ 32) (mod-eq_of_lt h))
        ]
      ]
    ]
