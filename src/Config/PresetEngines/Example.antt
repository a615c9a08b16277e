-- ===== src/Config/PresetEngines/Example.antt =====
-- Two registered preset engines (src/config/model.rs) that the tests run with.
use tabia_shogi_server.Common.Int.{pos}
use tabia_shogi_server.Common.Text.{same_text}
use tabia_shogi_server.Common.{none, some, [], ◌∷◌, ok, ◌≡◌, refl}
use tabia_shogi_server.Config.PresetEngines.{
  Protocol, Lifecycle, PresetEngine, PresetEngines, deserialize,
}

-- An engine that the server keeps up, with the token `h1`.
abbrev pub house : PresetEngine
house = record {
  token = 104 ∷ 49 ∷ [];
  protocol = Protocol.usi;
  command = (101 ∷ []) ∷ [];
  lifecycle = some Lifecycle.resident;
  usi_options = [];
  name = none;
  rating = some (pos 1800);
}

-- An engine that its operator runs, with the token `h2`.
abbrev pub guest : PresetEngine
guest = record house {
  token = 104 ∷ 50 ∷ [];
  protocol = Protocol.csa;
  command = [];
  lifecycle = none;
}

abbrev pub residents : PresetEngines
residents = house ∷ guest ∷ []

pub residents_load : deserialize residents ≡ ok residents
unfolding deserialize same_text
residents_load = refl
