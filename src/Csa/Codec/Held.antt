-- ===== src/Csa/Codec/Held.antt =====
-- A reader of bytes that are held in memory, as an instance of what src/csa/codec.rs reads from.
use tabia_shogi_server.Common.{
  ℕ, zero, suc, ◌<◌, false, List, [], ◌∷◌, ◌++◌, ◌==◌, if◌then◌else◌, length, any, ◌≡◌, refl, arith,
}
use tabia_shogi_server.Csa.Codec.{Reader}

unfoldable pub held_until : ℕ → List ℕ → List ℕ × List ℕ
held_until zero stream = ([], stream)
held_until (suc limit) [] = ([], [])
held_until (suc limit) (b ∷ stream) =
    let more = held_until limit stream in if b == 10 then (b ∷ [], stream) else (b ∷ more.0, more.1)

pub held_until-line :
    (limit : ℕ) (line rest : List ℕ)
    → any (λ b. b == 10) line ≡ false
    → length line < limit
    → held_until limit (line ++ 10 ∷ rest) ≡ (line ++ 10 ∷ [], rest)
unfolding any held_until
held_until-line zero line rest h k = absurd (omega (arith, k))
held_until-line (suc limit) [] rest h k = unfold held_until in refl
held_until-line (suc limit) (b ∷ line) rest h k =
    let other : (b == 10) ≡ false = ground (arith, h) in
    let later = held_until-line limit line rest (ground (arith, h)) (omega (arith, k)) in
    rw (held_until, other, later) refl

abbrev pub held : Reader
held = record { read_until = held_until; read_until-line = held_until-line }
