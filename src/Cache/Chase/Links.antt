-- ===== src/Cache/Chase/Links.antt =====
-- common/cache/cache_curve.cpp: links along a list of words, and the loads that follow them.
use cpufb.Base.{
  ℕ, ◌+◌, ◌≡◌, ◌≤◌, refl, ap, ◌∙◌, List, [], ◌∷◌, ◌++◌, ◌==◌, if◌then◌else◌, arith, length,
}
use cpufb.Cache.Chase.{Buffer, write, visits, chase}

-- Each word is linked to the next one, and the last one to `end`.
unfoldable pub link_to : List ℕ → ℕ → Buffer → Buffer
link_to [] end buffer = buffer
link_to (word ∷ []) end buffer = write buffer word end
link_to (word ∷ next ∷ words) end buffer = link_to (next ∷ words) end (write buffer word next)

pub link_to-append :
    (xs : List ℕ) (y : ℕ) (ys : List ℕ) (end : ℕ) (buffer : Buffer)
    → link_to (xs ++ y ∷ ys) end buffer ≡ link_to (y ∷ ys) end (link_to xs y buffer)
unfolding link_to
link_to-append [] y ys end buffer = refl
link_to-append (x ∷ []) y ys end buffer = refl
link_to-append (x ∷ z ∷ xs) y ys end buffer = link_to-append (z ∷ xs) y ys end (write buffer x z)

-- How often a word is in a list.
unfoldable pub times : ℕ → List ℕ → ℕ
times v [] = 0
times v (x ∷ xs) = (if v == x then 1 else 0) + times v xs

pub times-append : (v : ℕ) (xs ys : List ℕ) → times v (xs ++ ys) ≡ times v xs + times v ys
unfolding times
times-append v [] ys = omega arith
times-append v (x ∷ xs) ys = omega (arith, times-append v xs ys)

link_to-spares :
    (xs : List ℕ) (end v : ℕ) (buffer : Buffer)
    → times v xs ≡ 0
    → link_to xs end buffer v ≡ buffer v
unfolding link_to times write
link_to-spares [] end v buffer h = refl
link_to-spares (x ∷ []) end v buffer h = ground arith
link_to-spares (x ∷ y ∷ xs) end v buffer h =
    ground (arith, link_to-spares (y ∷ xs) end v (write buffer x y))

write-same : (buffer : Buffer) (word value : ℕ) → write buffer word value word ≡ value
unfolding write
write-same buffer word value = ground arith

link_to-next :
    (x y : ℕ) (xs : List ℕ) (end : ℕ) (buffer : Buffer)
    → times x (x ∷ y ∷ xs) ≤ 1
    → link_to (x ∷ y ∷ xs) end buffer x ≡ y
unfolding link_to times
link_to-next x y xs end buffer once =
    link_to-spares (y ∷ xs) end x (write buffer x y) (ground arith) ∙ write-same buffer x y

-- A chase along links through words that are all different.
pub visits-link_to :
    (x : ℕ) (xs : List ℕ) (end : ℕ) (buffer : Buffer)
    → ((v : ℕ) → times v (x ∷ xs) ≤ 1)
    → let linked = link_to (x ∷ xs) end buffer in
      (visits (length (x ∷ xs)) linked x ≡ x ∷ xs) × (chase (length (x ∷ xs)) linked x ≡ end)
unfolding visits chase link_to times
visits-link_to x [] end buffer once = (refl, write-same buffer x end)
visits-link_to x (y ∷ xs) end buffer once =
    let linked = link_to (y ∷ xs) end (write buffer x y) in
    let next : linked x ≡ y = link_to-next x y xs end buffer (once x) in
    let (visited, ends) = visits-link_to y xs end (write buffer x y) (λ v. omega (arith, once v)) in
    (rw next (ap (x ∷◌) visited), ap (chase (length (y ∷ xs)) linked) next ∙ ends)
