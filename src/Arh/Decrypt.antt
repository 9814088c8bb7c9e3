-- ===== src/Arh/Decrypt.antt =====
-- ardain/src/arh.rs: `EncryptedSection::decrypt`, which reads the string table and the path dictionary.
use ard_tools.Base.{
  ℕ, zero, suc, ◌/◌, ◌%◌, ◌≤◌, ◌≡◌, inl, inr, refl, sym, ap, ◌∙◌, Option, none, some, List, [], ◌∷◌,
  arith, ltb, ◌==◌, if◌then◌else◌, length, take, bit_xor, Bool-cases,
}
use ard_tools.Arh.State.{key_xor}
use ard_tools.Bits.Xor.{bit_xor_comm, bit_xor-cancel}

-- The byte of `key.to_le_bytes()` for a byte at `i` of its chunk.
abbrev pub key_byte : ℕ → ℕ → ℕ
key_byte key zero = key % 256
key_byte key (suc zero) = key / 0x100 % 256
key_byte key (suc (suc zero)) = key / 0x10000 % 256
key_byte key (suc (suc (suc i))) = key / 0x1000000 % 256

-- The loop over `chunks_exact_mut(4)`, which leaves out what is behind the last chunk.
unfoldable pub xor_chunks : ℕ → List ℕ → List ℕ
xor_chunks key (a ∷ b ∷ c ∷ d ∷ rest) =
    bit_xor a (key_byte key 0)
    ∷ bit_xor b (key_byte key 1)
    ∷ bit_xor c (key_byte key 2)
    ∷ bit_xor d (key_byte key 3)
    ∷ xor_chunks key rest
xor_chunks key bytes = bytes

-- `decrypt`, of the bytes that the stream has; `none` is the error at its end.
unfoldable pub decrypt : List ℕ → ℕ → ℕ → Option (List ℕ)
decrypt stream len key =
    let buf = take len stream in
    let mask = bit_xor key key_xor in
    if ltb (length stream) len
    then none
    else if mask == 0
    then some buf
    else some (xor_chunks mask buf)

xor_twice : (a k : ℕ) → bit_xor (bit_xor a k) k ≡ a
xor_twice a k =
    bit_xor_comm (bit_xor a k) k ∙ ap (bit_xor k) (bit_xor_comm a k) ∙ bit_xor-cancel k a

xor_chunks_twice : (key : ℕ) (bytes : List ℕ) → xor_chunks key (xor_chunks key bytes) ≡ bytes
unfolding xor_chunks
xor_chunks_twice key [] = refl
xor_chunks_twice key (a ∷ []) = refl
xor_chunks_twice key (a ∷ b ∷ []) = refl
xor_chunks_twice key (a ∷ b ∷ c ∷ []) = refl
xor_chunks_twice key (a ∷ b ∷ c ∷ d ∷ rest) = cc (
  xor_twice a (key_byte key 0),
  xor_twice b (key_byte key 1),
  xor_twice c (key_byte key 2),
  xor_twice d (key_byte key 3),
  xor_chunks_twice key rest,
)

length-xor_chunks : (key : ℕ) (bytes : List ℕ) → length (xor_chunks key bytes) ≡ length bytes
unfolding xor_chunks
length-xor_chunks key [] = refl
length-xor_chunks key (a ∷ []) = refl
length-xor_chunks key (a ∷ b ∷ []) = refl
length-xor_chunks key (a ∷ b ∷ c ∷ []) = refl
length-xor_chunks key (a ∷ b ∷ c ∷ d ∷ rest) = omega (arith, length-xor_chunks key rest)

length-take : (n : ℕ) (bytes : List ℕ) → n ≤ length bytes → length (take n bytes) ≡ n
length-take zero bytes h = refl
length-take (suc n) [] h = absurd (omega arith)
length-take (suc n) (b ∷ bs) h = omega (arith, length-take n bs (omega arith))

take_whole : (n : ℕ) (bytes : List ℕ) → length bytes ≡ n → take n bytes ≡ bytes
take_whole zero [] h = refl
take_whole zero (b ∷ bs) h = absurd (omega arith)
take_whole (suc n) [] h = refl
take_whole (suc n) (b ∷ bs) h = ap (λ t. b ∷ t) (take_whole n bs (omega arith))

-- Where `decrypt` of a stream succeeds, its result has the length that was asked for, and `decrypt` of the
-- result with the same key gives the bytes of the stream; with the key `KEY_XOR` it gives them at once.
pub decrypt_twice :
    (stream : List ℕ) (len key : ℕ) {buf : List ℕ}
    → decrypt stream len key ≡ some buf
    → (length buf ≡ len)
      × (decrypt buf len key ≡ some (take len stream))
      × (decrypt stream len key_xor ≡ some (take len stream))
unfolding decrypt
decrypt_twice stream len key {buf} e = elim (Bool-cases (ltb (length stream) len)) [
  | inl short ↦ absurd (ground (arith, e))
  | inr enough ↦
      let fits : len ≤ length stream = ground arith in
      let same_key : bit_xor key_xor key_xor ≡ 0 = refl in
      elim (Bool-cases (bit_xor key key_xor == 0)) [
        | inl plain ↦
            let shown : take len stream ≡ buf = ground (arith, e) in
            let size : length buf ≡ len = ap length (sym shown) ∙ length-take len stream fits in
            (size, ground (arith, take_whole len buf size, size, shown), ground (arith, same_key))
        | inr masked ↦
            let shown : xor_chunks (bit_xor key key_xor) (take len stream) ≡ buf =
              ground (arith, e) in
            let size : length buf ≡ len =
              ap length (sym shown)
              ∙ length-xor_chunks (bit_xor key key_xor) (take len stream)
              ∙ length-take len stream fits in
            let back : xor_chunks (bit_xor key key_xor) (take len buf) ≡ take len stream =
              ap (xor_chunks (bit_xor key key_xor)) (take_whole len buf size ∙ sym shown)
              ∙ xor_chunks_twice (bit_xor key key_xor) (take len stream) in
            (size, ground (arith, size, back), ground (arith, same_key))
      ]
]
