-- ===== src/Hash/Pieces.antt =====
-- A run of `shaX_init`, `shaX_update` and `shaX_finish` against the hash of the whole message.
use hc.Base.{
  ℕ, ◌^◌, ◌≡◌, ◌≤◌, ◌<◌, sym, arith, List, [], ◌∷◌, ◌++◌, append_assoc, append-nil, length,
  length-append,
}
use hc.Hash.{Scheme, Context, block_size, update, init, finish}
use hc.Hash.Absorbed.{StandsFor, init-StandsFor}
use hc.Hash.Update.{update-StandsFor}
use hc.Hash.Padding.{IsValid, hash}
use hc.Hash.Finish.{finish-StandsFor}

unfoldable pub joined : List (List ℕ) → List ℕ
joined [] = []
joined (input ∷ inputs) = input ++ joined inputs

module _ (s : Scheme) where
  -- Any number of calls of `shaX_update`.
  unfoldable pub update_all : Context → List (List ℕ) → Context
  update_all self [] = self
  update_all self (input ∷ inputs) = update_all (update s self input) inputs

  update_all-StandsFor :
      (self : Context) (message : List ℕ) (inputs : List (List ℕ))
      → s.shift ≤ 64
      → length (joined inputs) < 2 ^ 64
      → StandsFor s self message
      → StandsFor s (update_all self inputs) (message ++ joined inputs)
  unfolding update_all joined
  update_all-StandsFor self message [] h l st = rw (append-nil message) st
  update_all-StandsFor self message (input ∷ inputs) h l st =
      let both = length-append input (joined inputs) in
      rw (sym (append_assoc message input (joined inputs))) (
        update_all-StandsFor (update s self input) (message ++ input) inputs h (omega (arith, both))
          (update-StandsFor s self message input h (omega (arith, both)) st))

  -- However a message is cut into pieces, `shaX_init`, `shaX_update` of each and `shaX_finish` return
  -- the hash of the whole message.
  pub finish-update_all :
      (buffer : List ℕ) (inputs : List (List ℕ))
      → IsValid s
      → length buffer ≡ block_size s
      → length (joined inputs) < 2 ^ 61
      → finish s (update_all (init s buffer) inputs) ≡ hash s (joined inputs)
  finish-update_all buffer inputs v l h =
      finish-StandsFor s (update_all (init s buffer) inputs) (joined inputs) v h (
        update_all-StandsFor (init s buffer) [] inputs v.shift_bound (omega arith)
          (init-StandsFor s buffer l))
