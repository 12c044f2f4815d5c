-- ===== src/Prelude/Utf8.antt =====
-- What `utf8.Valid` of the Go library decides: every code point in its shortest form, no surrogates,
-- none above U+10FFFF. The state is what the bytes read so far still call for.
use Prim.Native.Nat.{ℕ, zero, suc}
use mathlib.Core.Path.{◌≡◌, ap, refl}
use mathlib.Core.Bool.{not, Bool, true, false, ◌&&◌}
use mathlib.Core.List.{List, [], ◌∷◌}
use rewind.Prelude.Tests.{ltb, leb, ◌==◌, if◌then◌else◌}

-- `more n lo hi`: the next byte lies in lo..hi, and `n` continuation bytes follow it.
pub data Utf8State : Type 0 where
  start : Utf8State
  more : ℕ → ℕ → ℕ → Utf8State
  bad : Utf8State

lead : ℕ → Utf8State
lead c =
    if ltb c 0x80
    then start
    else if ltb c 0xC2
    then bad
    else if ltb c 0xE0
    then more 0 0x80 0xBF
    else if c == 0xE0
    then more 1 0xA0 0xBF
    else if c == 0xED
    then more 1 0x80 0x9F
    else if ltb c 0xF0
    then more 1 0x80 0xBF
    else if c == 0xF0
    then more 2 0x90 0xBF
    else if ltb c 0xF4
    then more 2 0x80 0xBF
    else if c == 0xF4
    then more 2 0x80 0x8F
    else bad

next : Utf8State → ℕ → Utf8State
unfolding lead
next start c = lead c
next (more zero lo hi) c = if leb lo c && leb c hi then start else bad
next (more (suc n) lo hi) c = if leb lo c && leb c hi then more n 0x80 0xBF else bad
next bad c = bad

complete : Utf8State → Bool
complete start = true
complete (more n lo hi) = false
complete bad = false

scan : Utf8State → List ℕ → Bool
unfolding next complete
scan s [] = complete s
scan s (c ∷ cs) = scan (next s c) cs

unfoldable pub utf8_valid : List ℕ → Bool
unfolding scan
utf8_valid cs = scan start cs

-- The check that a decoder makes passes.
pub accepted : (cs : List ℕ) → utf8_valid cs ≡ true → not (utf8_valid cs) ≡ false
accepted cs h = ap not h

ascii_valid : utf8_valid (0x61 ∷ 0x62 ∷ []) ≡ true
unfolding utf8_valid
ascii_valid = refl

cyrillic_valid : utf8_valid (0xD0 ∷ 0x96 ∷ []) ≡ true
unfolding utf8_valid
cyrillic_valid = refl

overlong_invalid : utf8_valid (0xC0 ∷ 0x80 ∷ []) ≡ false
unfolding utf8_valid
overlong_invalid = refl
