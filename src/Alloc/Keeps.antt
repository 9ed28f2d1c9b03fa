-- ===== src/Alloc/Keeps.antt =====
-- hw3: words of the heap that a function leaves as they are.
use system_fundamentals_c_pr.Base.{ℕ, ◌+◌, ◌*◌, ◌^◌, ◌<◌, ◌≡◌, ◌≢◌, refl, ◌∙◌, arith, ==_of_ne}
use system_fundamentals_c_pr.Alloc.Memory.{Heap, store, below}

-- What a call leaves of a word, and of the bounds of the heap.
pub record Keeps (heap heap' : Heap) (a : ℕ) : Type 0 where
  pub word : heap'.words a ≡ heap.words a
  pub lower : heap'.heap_start ≡ heap.heap_start
  pub upper : heap'.heap_end ≡ heap.heap_end

pub Keeps-refl : (heap : Heap) (a : ℕ) → Keeps heap heap a
Keeps-refl heap a = record { word = refl; lower = refl; upper = refl }

pub store-Keeps : (heap : Heap) (a b w : ℕ) → a ≢ b → Keeps heap (store heap b w) a
store-Keeps heap a b w ne = record { word = rw (==_of_ne a b ne) refl; lower = refl; upper = refl }

pub Keeps-trans : (x y z : Heap) (a : ℕ) → Keeps x y a → Keeps y z a → Keeps x z a
Keeps-trans x y z a k l = record {
  word = l.word ∙ k.word;
  lower = l.lower ∙ k.lower;
  upper = l.upper ∙ k.upper;
}

-- A header is not its footer.
pub footer-ne : (h s : ℕ) → 0 < s → h + s * 16 < 2 ^ 64 → h ≢ below (h + s * 16)
footer-ne h s l b e = omega (arith, l, b, e)
