-- ===== src/Storage/BufferPool/Clock.antt =====
-- The search for a victim, and the pins of a cached page.
use tensorvault.Prelude.{
  ℕ, zero, suc, ◌+◌, ◌*◌, ◌%◌, ◌^◌, ◌<◌, ◌≡◌, refl, ap, ◌==◌, true, false, Option, none, some, List,
  [], ◌∷◌, length, get_elem?, set, arith, inl, inr, Option-cases, Bool-cases, ==_iff,
}
use tensorvault.Prelude.Results.{ok}
use tensorvault.Prelude.HashMap
use tensorvault.Storage.BufferPool.{
  PageId, page_id_eq, Frame, BufferPool, set_frame, advance_hand, find_victim_from, find_victim,
  fetch_page, pin, unpin_frame, unpin_page,
}

module _ {P : Type 0} where
  -- The frames without their clock bits.
  abbrev pub without_bits : List (Frame P) → List (Frame P)
  without_bits [] = []
  without_bits (f ∷ fs) = record f { referenced = false } ∷ without_bits fs

  without_bits-set :
      (fs : List (Frame P)) (i : ℕ) (f : Frame P)
      → get_elem? fs i ≡ some f
      → without_bits (set fs i (record f { referenced = false })) ≡ without_bits fs
  without_bits-set [] i f h = refl
  without_bits-set (g ∷ fs) zero f h = ground arith
  without_bits-set (g ∷ fs) (suc i) f h =
      ap (λ t. record g { referenced = false } ∷ t) (without_bits-set fs i f h)

  -- Nothing but the clock has changed.
  abbrev pub SameButClock : BufferPool P → BufferPool P → Type 0
  SameButClock v p =
      (without_bits v.frames ≡ without_bits p.frames)
      × (v.page_table ≡ p.page_table)
      × (v.disk ≡ p.disk)
      × (v.next_page_num ≡ p.next_page_num)
      × (v.outcomes ≡ p.outcomes)

  find_victim_from_same : (n : ℕ) (p : BufferPool P) → SameButClock (find_victim_from n p).1 p
  unfolding find_victim_from set_frame advance_hand
  find_victim_from_same zero p = (refl, refl, refl, refl, refl)
  find_victim_from_same (suc n) p = elim (Option-cases (get_elem? p.frames p.clock_hand)) [
    | inl e ↦ ground (arith, e)
    | inr (f, e) ↦
        let cleared = set_frame p.clock_hand (record f { referenced = false }) (advance_hand p) in
        ground (
          arith,
          e,
          find_victim_from_same n (advance_hand p),
          find_victim_from_same n cleared,
          without_bits-set p.frames p.clock_hand f e,
        )
  ]

  abbrev pub IsVictim : Option ℕ × BufferPool P → Type 0
  IsVictim (none, v) = Unit
  IsVictim (some idx, v) =
      (f : Frame P) × (get_elem? v.frames idx ≡ some f) × (f.pin_count ≡ 0) × (f.referenced ≡ false)

  round_missing :
      (n : ℕ) (p : BufferPool P)
      → get_elem? p.frames p.clock_hand ≡ none
      → find_victim_from (suc n) p ≡ (none, p)
  unfolding find_victim_from
  round_missing n p e = ground (arith, e)

  round_pinned :
      (n : ℕ) (p : BufferPool P) (f : Frame P)
      → get_elem? p.frames p.clock_hand ≡ some f
      → (f.pin_count == 0) ≡ false
      → find_victim_from (suc n) p ≡ find_victim_from n (advance_hand p)
  unfolding find_victim_from
  round_pinned n p f e h = ground (arith, e)

  round_referenced :
      (n : ℕ) (p : BufferPool P) (f : Frame P)
      → get_elem? p.frames p.clock_hand ≡ some f
      → (f.pin_count == 0) ≡ true
      → f.referenced ≡ true
      → find_victim_from (suc n) p
        ≡ find_victim_from n
            (set_frame p.clock_hand (record f { referenced = false }) (advance_hand p))
  unfolding find_victim_from
  round_referenced n p f e h r = ground (arith, e)

  round_found :
      (n : ℕ) (p : BufferPool P) (f : Frame P)
      → get_elem? p.frames p.clock_hand ≡ some f
      → (f.pin_count == 0) ≡ true
      → f.referenced ≡ false
      → find_victim_from (suc n) p ≡ (some p.clock_hand, advance_hand p)
  unfolding find_victim_from
  round_found n p f e h r = ground (arith, e)

  find_victim_from-IsVictim : (n : ℕ) (p : BufferPool P) → IsVictim (find_victim_from n p)
  find_victim_from-IsVictim zero p = unfold find_victim_from in tt
  find_victim_from-IsVictim (suc n) p = elim (Option-cases (get_elem? p.frames p.clock_hand)) [
    | inl e ↦ rw (round_missing n p e) tt
    | inr (f, e) ↦ elim (Bool-cases (f.pin_count == 0)) [
      | inr pinned ↦ rw (round_pinned n p f e pinned) (find_victim_from-IsVictim n (advance_hand p))
      | inl free ↦ elim (Bool-cases f.referenced) [
        | inl used ↦ rw (round_referenced n p f e free used) (
            find_victim_from-IsVictim n
              (set_frame p.clock_hand (record f { referenced = false }) (advance_hand p)))
        | inr idle ↦
            rw (round_found n p f e free idle)
              (f, unfold advance_hand in e, (==_iff f.pin_count 0).0 free, idle)
      ]
    ]
  ]

  -- A frame that `find_victim` returns is neither pinned nor marked as referenced, and the search,
  -- also one that finds none, changes nothing but the clock: no page, pin, dirty flag, page ID,
  -- table entry or file.
  pub find_victim_lem :
      (p : BufferPool P) → IsVictim (find_victim p) × SameButClock (find_victim p).1 p
  unfolding find_victim
  find_victim_lem p = (
    find_victim_from-IsVictim (2 * length p.frames) p,
    find_victim_from_same (2 * length p.frames) p,
  )

  pub get_elem?-set :
      (fs : List (Frame P)) (i : ℕ) (f g : Frame P)
      → get_elem? fs i ≡ some f
      → get_elem? (set fs i g) i ≡ some g
  get_elem?-set [] i f g h = ground arith
  get_elem?-set (x ∷ fs) zero f g h = refl
  get_elem?-set (x ∷ fs) (suc i) f g h = get_elem?-set fs i f g h

  pub set-set : (fs : List (Frame P)) (i : ℕ) (f g : Frame P) → set (set fs i f) i g ≡ set fs i g
  set-set [] i f g = refl
  set-set (x ∷ fs) zero f g = refl
  set-set (x ∷ fs) (suc i) f g = ap (λ t. x ∷ t) (set-set fs i f g)

  -- Fetching a page that the pool has returns its frame without any I/O, and the `unpin_page` that
  -- follows, of a page that was not written, leaves the pool as it was, with the frame marked as
  -- referenced. The frame has fewer than 2 ^ 32 - 1 pins.
  pub fetch_unpin :
      (p : BufferPool P) (id : PageId) (idx : ℕ) (f : Frame P)
      → HashMap.get p.page_table id ≡ some idx
      → get_elem? p.frames idx ≡ some f
      → f.pin_count + 1 < 2 ^ 32
      → ((fetch_page id p).0 ≡ ok idx)
        × (unpin_page id false (fetch_page id p).1
            ≡ record p { frames = set p.frames idx (record f { referenced = true }) })
  unfolding fetch_page pin unpin_page unpin_frame set_frame
  fetch_unpin p id idx f t e b =
      let g = record f { pin_count = (f.pin_count + 1) % 2 ^ 32; referenced = true } in
      (
        ground (arith, t, e),
        ground (
          arith,
          t,
          e,
          get_elem?-set p.frames idx f g e,
          set-set p.frames idx g (record f { referenced = true }),
        ),
      )
