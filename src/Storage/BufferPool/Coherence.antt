-- ===== src/Storage/BufferPool/Coherence.antt =====
-- What a pool shows for each page, and when its frames, its table and the files agree.
use tensorvault.Prelude.{
  ℕ, zero, suc, ◌≡◌, refl, sym, ap, ◌==◌, Bool, true, false, Bool-cases, inl, inr, if◌then◌else◌,
  Option, none, some, List, [], ◌∷◌, get_elem?, set, arith,
}
use tensorvault.Prelude.HashMap
use tensorvault.Storage.BufferPool.{PageId, page_id_eq, Frame, BufferPool}

-- What a frame holds, without its pins and its clock bit.
pub record View (P : Type 0) : Type 0 where
  pub page : P
  pub dirty : Bool
  pub page_id : Option PageId

-- Dropping a page from its frame: from the table, and to the file.
abbrev pub dropped : Option PageId → PageId → Option ℕ → Option ℕ
dropped none q t = t
dropped (some id) q t = if page_id_eq.beq id q then none else t

pub clash : {b : Bool} → b ≡ true → b ≡ false → ⊥
clash p q = ground (arith, p, q)

pub same_id : (a b : PageId) → page_id_eq.beq a b ≡ true → a ≡ b
same_id a b h = (page_id_eq.beq_iff a b).0 h

pub same_some {ℓ} : {A : Type ℓ} {a b : A} → some a ≡ some b → a ≡ b
same_some h = ground (arith, h)

pub not_none {ℓ} : {A : Type ℓ} {a : A} {o : Option A} → o ≡ some a → o ≡ none → ⊥
not_none h k = ground (arith, h, k)

pub differs : (a b : PageId) → page_id_eq.beq a b ≡ false → a ≡ b → ⊥
differs a b h e = ground (arith, h, (page_id_eq.beq_iff a b).1 e)

pub dropped_other :
    (o : Option PageId) (q : PageId) (x : Option ℕ) → (o ≡ some q → ⊥) → dropped o q x ≡ x
dropped_other none q x h = refl
dropped_other (some o) q x h = elim (Bool-cases (page_id_eq.beq o q)) [
  | inl e ↦ absurd (h (ap (λ t. some t) (same_id o q e)))
  | inr n ↦ rw n refl
]

pub dropped_same :
    (o : Option PageId) (q : PageId) (x : Option ℕ) → o ≡ some q → dropped o q x ≡ none
dropped_same none q x h = ground (arith, h)
dropped_same (some o) q x h = rw ((page_id_eq.beq_iff o q).1 (same_some h)) refl

module _ {P : Type 0} where
  abbrev pub view : Frame P → View P
  view f = record { page = f.page; dirty = f.dirty; page_id = f.page_id }

  abbrev pub look : List (Frame P) → ℕ → Option (View P)
  look [] i = none
  look (f ∷ fs) zero = some (view f)
  look (f ∷ fs) (suc i) = look fs i

  abbrev pub held : Option (View P) → P → P
  held none d = d
  held (some v) d = v.page

  abbrev pub cached : (ℕ → Option (View P)) → Option ℕ → P → P
  cached l none d = d
  cached l (some idx) d = held (l idx) d

  -- The page of the frame that the table names, or else the page in the file.
  abbrev pub shown : (ℕ → Option (View P)) → (PageId → Option ℕ) → (PageId → P) → PageId → P
  shown l t d id = cached l (t id) (d id)

  -- The table and the IDs of the frames are inverse to each other, and a clean page is the file's.
  abbrev pub IsCoherent : (ℕ → Option (View P)) → (PageId → Option ℕ) → (PageId → P) → Type 0
  IsCoherent l t d =
      ((id : PageId) (idx : ℕ)
        → t id ≡ some idx
        → (v : View P) × (l idx ≡ some v) × (v.page_id ≡ some id))
      × ((id : PageId) (idx : ℕ) (v : View P)
          → l idx ≡ some v
          → v.page_id ≡ some id
          → t id ≡ some idx)
      × ((id : PageId) (idx : ℕ) (v : View P)
          → l idx ≡ some v
          → v.page_id ≡ some id
          → v.dirty ≡ false
          → v.page ≡ d id)

  abbrev pub table : BufferPool P → PageId → Option ℕ
  table p id = HashMap.get p.page_table id

  abbrev pub IsPool : BufferPool P → Type 0
  IsPool p = IsCoherent (look p.frames) (table p) p.disk

  -- What a reader of the page sees.
  abbrev pub current : BufferPool P → PageId → P
  current p = shown (look p.frames) (table p) p.disk

  pub look-get_elem? :
      (fs : List (Frame P)) (i : ℕ) (f : Frame P)
      → get_elem? fs i ≡ some f
      → look fs i ≡ some (view f)
  look-get_elem? [] i f e = ground (arith, e)
  look-get_elem? (g ∷ fs) zero f e =
      let same : g ≡ f = ground (arith, e) in ap (λ t. some (view t)) same
  look-get_elem? (g ∷ fs) (suc i) f e = look-get_elem? fs i f e

  pub look-set :
      (fs : List (Frame P)) (i j : ℕ) (f g : Frame P)
      → get_elem? fs i ≡ some f
      → look (set fs i g) j ≡ (if i == j then some (view g) else look fs j)
  look-set [] i j f g e = ground (arith, e)
  look-set (h ∷ fs) zero zero f g e = refl
  look-set (h ∷ fs) zero (suc j) f g e = ground arith
  look-set (h ∷ fs) (suc i) zero f g e = ground arith
  look-set (h ∷ fs) (suc i) (suc j) f g e = ground (arith, look-set fs i j f g e)

  abbrev pub saved : Option PageId → PageId → P → P → P
  saved none q page d = d
  saved (some id) q page d = if page_id_eq.beq q id then page else d

  pub saved_other :
      (o : Option PageId) (q : PageId) (page x : P) → (o ≡ some q → ⊥) → saved o q page x ≡ x
  saved_other none q page x h = refl
  saved_other (some o) q page x h = elim (Bool-cases (page_id_eq.beq q o)) [
    | inl e ↦ absurd (h (ap (λ t. some t) (sym (same_id q o e))))
    | inr n ↦ rw n refl
  ]

  pub saved_same :
      (o : Option PageId) (q : PageId) (page x : P) → o ≡ some q → saved o q page x ≡ page
  saved_same none q page x h = ground (arith, h)
  saved_same (some o) q page x h = rw ((page_id_eq.beq_iff q o).1 (sym (same_some h))) refl
