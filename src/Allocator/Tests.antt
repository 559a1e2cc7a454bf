-- ===== src/Allocator/Tests.antt =====
-- An allocator of 5000 bytes in pages of 4096.
use hc.Base.{ℕ, ◌^◌, ◌≡◌, ◌≤◌, refl, arith, Bool, true, false, ltb, [], ◌∷◌, if◌then◌else◌}
use hc.Math.{align_forward}
use hc.Allocator.{Allocator, commit, decommit, allocator_resize, resize_pages}
use hc.Allocator.Committed.{IsExact, after_calls, allocator_resize-IsExact}

abbrev two_pages : Allocator
two_pages = record { size = 5000; reserve_size = 65536 }

abbrev always : ℕ → ℕ → Bool
always start len = true

two_pages-IsExact : IsExact (2 ^ 12) two_pages (λ x. ltb x 8192)
two_pages-IsExact = record {
  end = 8192;
  pages = record { covers = omega arith; whole = refl; least = λ m h e. omega arith };
  exact = λ x. refl;
  reserved = omega arith;
}

grows : (allocator_resize 4096 always two_pages 9000).calls ≡ commit 8192 4096 ∷ []
unfolding allocator_resize align_forward resize_pages
grows = refl

shrinks : (allocator_resize 4096 always two_pages 4096).calls ≡ decommit 4096 4096 ∷ []
unfolding allocator_resize align_forward resize_pages
shrinks = refl

allocator_resize-IsExact_example :
    let r = allocator_resize (2 ^ 12) always two_pages 9000 in
    IsExact (2 ^ 12) r.allocator (after_calls r.calls (λ x. ltb x 8192))
    × (r.allocator.size ≡ (if r.succeeded then 9000 else 5000))
    × (r.succeeded ≡ false → r.calls ≡ [])
    × (9000 ≤ 5000 → r.succeeded ≡ true)
allocator_resize-IsExact_example =
    allocator_resize-IsExact 12 always two_pages 9000 (λ x. ltb x 8192) (omega arith) (omega arith)
      (omega arith) (omega arith) two_pages-IsExact
