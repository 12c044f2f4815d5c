-- ===== src/Protocol/Client/Safety.antt =====
-- DecodeClient on any bytes.
use rewind.Prelude.{
  refl, ltb→lt, ℕ, ◌+◌, ◌≢◌, List, not, ◌==◌, ltb, length, Bool-cases, arith, inl, inr, ltb→le, ◌≤◌,
  ◌≡◌, true,
}
use rewind.Prelude.Result.{
  panic, Returns, ok_returns, err_returns, >>=-Returns, fail_if-Returns, short-Returns,
  Returns-ne-panic, Ensures, fail_if-Ensures, >>=-Ensures, ok, Ensures-ok, ok_ensures, err_ensures,
}
use rewind.Prelude.Bytes.{
  byte_at-Returns, u16_at-Returns, u32_at-Returns, slice-Returns, slice_from-Returns, byte_at,
  slice, slice_from, length-slice, u16_at,
}
use rewind.Prelude.Utf8.{utf8_valid}
use rewind.Protocol.Client.{
  decode_input, decode_token, decode_join, decode_body, decode_client, optional_byte, ClientMessage,
  JoinIsValid, zero_join,
}

-- An optional byte is read only where the body has it.
optional_byte-Returns : (b : List ℕ) (i : ℕ) → Returns (optional_byte b i)
unfolding optional_byte
optional_byte-Returns b i = elim (Bool-cases (ltb i (length b))) [
  | inl h ↦ rw h (byte_at-Returns b i (ltb→lt i (length b) h))
  | inr h ↦ rw h (ok_returns 0)
]

decode_input-Returns : (b : List ℕ) → Returns (decode_input b)
unfolding decode_input
decode_input-Returns b = short-Returns (length b) 15 _ λ h.
    >>=-Returns (u32_at-Returns b 0 (omega arith)) λ _ _.
      >>=-Returns (byte_at-Returns b 4 (omega arith)) λ _ _.
        >>=-Returns (u16_at-Returns b 5 (omega arith)) λ _ _.
          >>=-Returns (u32_at-Returns b 7 (omega arith)) λ _ _.
            >>=-Returns (u32_at-Returns b 11 (omega arith))
              λ _ _. >>=-Returns (optional_byte-Returns b 15) λ _ _. ok_returns _

decode_token-Returns : (name rest : List ℕ) → Returns (decode_token name rest)
unfolding decode_token
decode_token-Returns name b = short-Returns (length b) 2 _ λ h.
    >>=-Returns (u16_at-Returns b 0 h) λ tn _. fail_if-Returns (ltb 512 tn) _ λ _.
      short-Returns (length b) (2 + tn) _ λ fits.
        >>=-Returns (slice-Returns b 2 (2 + tn) (omega arith) fits) λ token _.
          fail_if-Returns (not (utf8_valid token)) _
            λ _. >>=-Returns (optional_byte-Returns b (2 + tn)) λ _ _. ok_returns _

decode_join-Returns : (b : List ℕ) → Returns (decode_join b)
unfolding decode_join
decode_join-Returns b = short-Returns (length b) 1 _ λ h. >>=-Returns (byte_at-Returns b 0 h) λ n _.
    fail_if-Returns (ltb 16 n) _ λ _. short-Returns (length b) (1 + n) _ λ fits.
      >>=-Returns (slice-Returns b 1 (1 + n) (omega arith) fits) λ name _.
        fail_if-Returns (not (utf8_valid name)) _ λ _.
          >>=-Returns (slice_from-Returns b (1 + n) fits) λ rest _. decode_token-Returns name rest

decode_body-Returns : (type : ℕ) (b : List ℕ) → Returns (decode_body type b)
unfolding decode_body
decode_body-Returns type b = elim (Bool-cases (type == 1)) [
  | inl h ↦ rw h (>>=-Returns (decode_input-Returns b) λ _ _. ok_returns _)
  | inr h ↦ rw h (elim (Bool-cases (type == 2)) [
    | inl k ↦ rw k (>>=-Returns (decode_join-Returns b) λ _ _. ok_returns _)
    | inr k ↦ rw k (err_returns _)
  ])
]

decode_client-Returns : (bytes : List ℕ) → Returns (decode_client bytes)
unfolding decode_client
decode_client-Returns bytes = fail_if-Returns (length bytes == 0) _ λ some.
    >>=-Returns (byte_at-Returns bytes 0 (ground arith)) λ type _.
      >>=-Returns (slice_from-Returns bytes 1 (ground arith))
        λ body _. decode_body-Returns type body

-- DecodeClient never panics: on every sequence of bytes it returns a message or an error.
pub decode_client-ne-panic : (bytes : List ℕ) → decode_client bytes ≢ panic
decode_client-ne-panic bytes = Returns-ne-panic (decode_client-Returns bytes)

decode_token-IsValid :
    (name rest : List ℕ)
    → length name ≤ 16
    → utf8_valid name ≡ true
    → Ensures JoinIsValid (decode_token name rest)
unfolding decode_token
decode_token-IsValid name b fits valid = fail_if-Ensures (ltb (length b) 2) _ λ _.
    >>=-Ensures (u16_at b 0) λ tn _. fail_if-Ensures (ltb 512 tn) _ λ short.
      fail_if-Ensures (ltb (length b) (2 + tn)) _ λ enough.
        >>=-Ensures (slice b 2 (2 + tn)) λ token e. fail_if-Ensures (not (utf8_valid token)) _ λ tv.
          >>=-Ensures (optional_byte b (2 + tn)) λ flag _. ok_ensures _ (record {
            name_fits = fits;
            token_fits = omega (arith, length-slice b 2 (2 + tn) e, ltb→le 512 tn short);
            name_utf8 = valid;
            token_utf8 = ground arith;
          })

decode_join-IsValid : (b : List ℕ) → Ensures JoinIsValid (decode_join b)
unfolding decode_join
decode_join-IsValid b = fail_if-Ensures (ltb (length b) 1) _ λ _. >>=-Ensures (byte_at b 0) λ n _.
    fail_if-Ensures (ltb 16 n) _ λ short. fail_if-Ensures (ltb (length b) (1 + n)) _ λ _.
      >>=-Ensures (slice b 1 (1 + n)) λ name e. fail_if-Ensures (not (utf8_valid name)) _ λ nv.
        >>=-Ensures (slice_from b (1 + n)) λ rest _.
          decode_token-IsValid name rest
            (omega (arith, length-slice b 1 (1 + n) e, ltb→le 16 n short)) (ground arith)

zero_join-IsValid : JoinIsValid zero_join
unfolding utf8_valid
zero_join-IsValid = record {
  name_fits = omega arith;
  token_fits = omega arith;
  name_utf8 = refl;
  token_utf8 = refl;
}

decode_body-IsValid :
    (type : ℕ) (b : List ℕ) → Ensures (λ m. JoinIsValid m.join) (decode_body type b)
unfolding decode_body
decode_body-IsValid type b = elim (Bool-cases (type == 1)) [
  | inl h ↦ rw h (>>=-Ensures (decode_input b) λ i _. ok_ensures _ zero_join-IsValid)
  | inr h ↦ rw h (elim (Bool-cases (type == 2)) [
    | inl k ↦
        rw k
          (>>=-Ensures (decode_join b) λ j e. ok_ensures _ (Ensures-ok (decode_join-IsValid b) e))
    | inr k ↦ rw k (err_ensures _)
  ])
]

-- Whatever the bytes, a message that DecodeClient returns holds a name and a token that are UTF-8 and
-- within their limits.
pub decode_client-JoinIsValid :
    (bytes : List ℕ) (m : ClientMessage) → decode_client bytes ≡ ok m → JoinIsValid m.join
unfolding decode_client
decode_client-JoinIsValid bytes m = Ensures-ok {P = λ m. JoinIsValid m.join} (
    fail_if-Ensures (length bytes == 0) _ λ _.
      >>=-Ensures (byte_at bytes 0)
        λ type _. >>=-Ensures (slice_from bytes 1) λ body _. decode_body-IsValid type body)
