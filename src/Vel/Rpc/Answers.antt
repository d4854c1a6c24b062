-- ===== src/Vel/Rpc/Answers.antt =====
-- The responses that `NewHandler` makes of the ends of a call.
use treenq.Base.{ℕ, ◌∷◌, Text, Result, ok, err, ◌≡◌, refl}
use treenq.Vel.Http.{write_header, respond}
use treenq.Vel.Rpc.{write_json}

pub respond-write_json :
    (code : ℕ) (r : Result Text) → (respond (write_header code ∷ write_json r)).status_code ≡ code
unfolding respond
respond-write_json code (ok t) = refl
respond-write_json code (err e) = refl
