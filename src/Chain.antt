-- ===== src/Chain.antt =====
-- Doubly linked lists through the objects of a heap, as libserveez/server-core.c keeps its sockets
-- and http-server/http-cache.c its entries. A pointer is a number, `none` is NULL, and each of the
-- fields `next` and `prev` is a map from pointers.
pub mod Segment
pub mod Unlink
pub mod Push
pub mod Move
use serveez.Base.{All, List, Option, [], if◌then◌else◌, none, some, ℕ, ◌==◌, ◌∷◌, ◌≡◌, ◌≢◌}

-- A write to one place of such a map.
unfoldable pub assign {ℓ} : {A : Type ℓ} → (ℕ → A) → ℕ → A → ℕ → A
assign f p v q = if p == q then v else f q

-- The root of the list, its last element, and the links.
pub record Links : Type 0 where
  pub first : Option ℕ
  pub last : Option ℕ
  pub next : ℕ → Option ℕ
  pub prev : ℕ → Option ℕ

-- A write through a pointer that may be NULL: then there is none.
abbrev pub assign_if : (ℕ → Option ℕ) → Option ℕ → Option ℕ → ℕ → Option ℕ
assign_if f none v = f
assign_if f (some p) v = assign f p v

-- The first element of a list, or what follows it, and the last, or what stands before it.
abbrev pub head_or : List ℕ → Option ℕ → Option ℕ
head_or [] after = after
head_or (x ∷ xs) after = some x

abbrev pub last_or : Option ℕ → List ℕ → Option ℕ
last_or before [] = before
last_or before (x ∷ xs) = last_or (some x) xs

-- No element is the pointer.
abbrev pub Absent : ℕ → List ℕ → Type 0
Absent x ids = All (λ y. x ≢ y) ids

abbrev pub AbsentIf : Option ℕ → List ℕ → Type 0
AbsentIf none ids = Unit
AbsentIf (some x) ids = Absent x ids

abbrev pub Distinct : List ℕ → Type 0
Distinct [] = Unit
Distinct (x ∷ xs) = Absent x xs × Distinct xs

-- The links run through `ids`, from what stands before them to what follows.
abbrev pub Segment : (ℕ → Option ℕ) → (ℕ → Option ℕ) → Option ℕ → List ℕ → Option ℕ → Type 0
Segment n p before [] after = Unit
Segment n p before (x ∷ xs) after =
    (n x ≡ head_or xs after) × (p x ≡ before) × Segment n p (some x) xs after

-- The list of these elements, none twice.
pub record IsChain (l : Links) (ids : List ℕ) : Type 0 where
  pub starts : l.first ≡ head_or ids none
  pub ends : l.last ≡ last_or none ids
  pub linked : Segment l.next l.prev none ids none
  pub distinct : Distinct ids
