-- ===== src/Protocol/Scores/Flags.antt =====
-- codec.go: the flag byte of a MatchState.
use Prim.Native.Nat.{bit_and, bit_or}
use rewind.Prelude.{ℕ, ◌≡◌, refl, Bool, true, false, not, ◌==◌, if◌then◌else◌}
use rewind.Protocol.Types.{
  match_flag_team_mode, match_flag_hill_mode, match_flag_dom_mode, match_flag_ctf_mode,
}

-- `b&flag != 0`
unfoldable pub has_flag : ℕ → ℕ → Bool
has_flag b flag = not (bit_and b flag == 0)

-- `if on { flags |= flag }`
set_flag : Bool → ℕ → ℕ → ℕ
set_flag on flag flags = if on then bit_or flags flag else flags

unfoldable pub match_flags : Bool → Bool → Bool → Bool → ℕ
unfolding set_flag
match_flags team hill dom ctf = set_flag ctf match_flag_ctf_mode (
    set_flag dom match_flag_dom_mode
      (set_flag hill match_flag_hill_mode (set_flag team match_flag_team_mode 0)))

-- Each mode is read back from the byte, whatever the others are.
pub has_flag-match_flags :
    (team hill dom ctf : Bool)
    → (has_flag (match_flags team hill dom ctf) match_flag_team_mode ≡ team)
      × (has_flag (match_flags team hill dom ctf) match_flag_hill_mode ≡ hill)
      × (has_flag (match_flags team hill dom ctf) match_flag_dom_mode ≡ dom)
      × (has_flag (match_flags team hill dom ctf) match_flag_ctf_mode ≡ ctf)
unfolding has_flag match_flags
has_flag-match_flags = elim [
  | true ↦ elim [
    | true ↦ elim [
      | true ↦ elim [ true ↦ (refl, refl, refl, refl) | false ↦ (refl, refl, refl, refl) ]
      | false ↦ elim [ true ↦ (refl, refl, refl, refl) | false ↦ (refl, refl, refl, refl) ]
    ]
    | false ↦ elim [
      | true ↦ elim [ true ↦ (refl, refl, refl, refl) | false ↦ (refl, refl, refl, refl) ]
      | false ↦ elim [ true ↦ (refl, refl, refl, refl) | false ↦ (refl, refl, refl, refl) ]
    ]
  ]
  | false ↦ elim [
    | true ↦ elim [
      | true ↦ elim [ true ↦ (refl, refl, refl, refl) | false ↦ (refl, refl, refl, refl) ]
      | false ↦ elim [ true ↦ (refl, refl, refl, refl) | false ↦ (refl, refl, refl, refl) ]
    ]
    | false ↦ elim [
      | true ↦ elim [ true ↦ (refl, refl, refl, refl) | false ↦ (refl, refl, refl, refl) ]
      | false ↦ elim [ true ↦ (refl, refl, refl, refl) | false ↦ (refl, refl, refl, refl) ]
    ]
  ]
]
