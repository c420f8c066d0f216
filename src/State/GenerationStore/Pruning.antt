-- ===== src/State/GenerationStore/Pruning.antt =====
-- The listing, and what pruning keeps.
use dasik.Base.{
  ℕ, ◌-◌, ◌≤◌, ◌≡◌, refl, ap, ◌∙◌, Bool, true, false, not, ◌&&◌, ◌||◌, Option, none, some, List, [],
  ◌∷◌, map, arith, nat_eq, leb, ltb, if◌then◌else◌, length, select, drop, mem_number,
  mem_number-append, Bool-cases, Option-cases, inl, inr,
}
use dasik.State.GenerationStore.{
  GenDir, Generations, GenInfo, find_dir, insert_dir, sort_dirs, info, list, number_of,
  is_current_number, newest_complete, option_list, survivors, doomed, prune, restore, restore_dir,
}

-- The number of a directory.
abbrev dir_number : GenDir → ℕ
dir_number d = d.number

-- Ascending, numbers that are equal allowed.
abbrev pub IsOrdered : List GenInfo → Type 0
IsOrdered [] = Unit
IsOrdered (g ∷ []) = Unit
IsOrdered (g ∷ h ∷ gs) = (g.number ≤ h.number) × IsOrdered (h ∷ gs)

module _ (current : Option ℕ) where
  insert_dir-IsOrdered :
      (d : GenDir) (ds : List GenDir)
      → IsOrdered (map (info current) ds)
      → IsOrdered (map (info current) (insert_dir d ds))
  unfolding insert_dir info
  insert_dir-IsOrdered d [] h = tt
  insert_dir-IsOrdered d (e ∷ []) h = ground arith
  insert_dir-IsOrdered d (e ∷ f ∷ ds) h = ground (arith, insert_dir-IsOrdered d (f ∷ ds) h.1)

  sort_dirs-IsOrdered : (ds : List GenDir) → IsOrdered (map (info current) (sort_dirs ds))
  unfolding sort_dirs
  sort_dirs-IsOrdered [] = tt
  sort_dirs-IsOrdered (d ∷ ds) = insert_dir-IsOrdered d (sort_dirs ds) (sort_dirs-IsOrdered ds)

  -- A test on numbers finds the same in the sorted listing as in the directory.
  mem-insert_dir :
      (p : ℕ → Bool) (n : ℕ) (d : GenDir) (ds : List GenDir)
      → mem_number n (
          map number_of
            (select (λ (g : GenInfo). p g.number) (map (info current) (insert_dir d ds))))
        ≡ ((nat_eq d.number n && p n)
            || mem_number n
                (map number_of (select (λ (g : GenInfo). p g.number) (map (info current) ds))))
  unfolding insert_dir info select mem_number
  mem-insert_dir p n d [] = ground arith
  mem-insert_dir p n d (e ∷ ds) = ground (arith, mem-insert_dir p n d ds)

  mem-listed :
      (p : ℕ → Bool) (n : ℕ) (ds : List GenDir)
      → mem_number n
          (map number_of (select (λ (g : GenInfo). p g.number) (map (info current) (sort_dirs ds))))
        ≡ (mem_number n (map dir_number ds) && p n)
  unfolding sort_dirs mem_number select
  mem-listed p n [] = refl
  mem-listed p n (d ∷ ds) =
      ground (arith, mem-insert_dir p n d (sort_dirs ds), mem-listed p n ds, p_at d.number)
    where
      p_at : (m : ℕ) → nat_eq m n ≡ true → p m ≡ p n
      p_at m h = ap p (ground arith)

  select-is_current :
      (ds : List GenDir)
      → select (λ (g : GenInfo). g.is_current) (map (info current) ds)
        ≡ select (λ (g : GenInfo). is_current_number current g.number) (map (info current) ds)
  unfolding info select
  select-is_current [] = refl
  select-is_current (d ∷ ds) = ground (arith, select-is_current ds)

select_all {ℓ} : {A : Type ℓ} (xs : List A) → select (λ _. true) xs ≡ xs
unfolding select
select_all [] = refl
select_all (x ∷ xs) = ap (◌∷◌ x) (select_all xs)

-- The listing has ascending numbers, and lists the directories that there are.
pub list_lem :
    (n : ℕ) (s : Generations)
    → IsOrdered (list s)
      × (mem_number n (map number_of (list s)) ≡ mem_number n (map dir_number s.dirs))
unfolding list
list_lem n s = (
  sort_dirs-IsOrdered s.current s.dirs,
  rw (← select_all (map (info s.current) (sort_dirs s.dirs)))
      (mem-listed s.current (λ _. true) n s.dirs ∙ ground arith),
)

find_dir-select :
    (q : ℕ → Bool) (n : ℕ) (ds : List GenDir)
    → find_dir (select (λ (d : GenDir). q d.number) ds) n ≡ (if q n then find_dir ds n else none)
unfolding find_dir select
find_dir-select q n [] = ground arith
find_dir-select q n (d ∷ ds) = ground (arith, find_dir-select q n ds, q_at d.number)
  where
    q_at : (m : ℕ) → nat_eq m n ≡ true → q m ≡ q n
    q_at m h = ap q (ground arith)

find_dir-absent :
    (n : ℕ) (ds : List GenDir) → mem_number n (map dir_number ds) ≡ false → find_dir ds n ≡ none
unfolding find_dir mem_number
find_dir-absent n [] h = refl
find_dir-absent n (d ∷ ds) h = ground (arith, find_dir-absent n ds)

mem-doomed :
    (keep n : ℕ) (s : Generations)
    → mem_number n (doomed keep (list s))
      ≡ (mem_number n (map dir_number s.dirs) && not (mem_number n (survivors keep (list s))))
unfolding doomed list
mem-doomed keep n s =
    mem-listed s.current (λ m. not (mem_number m (survivors keep (list s)))) n s.dirs

module _ (deletable : ℕ → Bool) (keep n : ℕ) (s : Generations) where
  pub prune_lem :
      ((prune deletable keep s).1.current ≡ s.current)
      × (find_dir (prune deletable keep s).1.dirs n ≡ (
          if (ltb keep 1 || leb (length (list s)) keep)
            || (mem_number n (survivors keep (list s)) || not (deletable n))
          then find_dir s.dirs n
          else none))
  unfolding prune
  prune_lem = (
    ground arith,
    ground (
      arith,
      find_dir-select (λ m. not (mem_number m (doomed keep (list s)) && deletable m)) n s.dirs,
      mem-doomed keep n s,
      find_dir-absent n s.dirs,
    ),
  )

mem-current :
    (c : ℕ) (s : Generations)
    → s.current ≡ some c
    → mem_number c (map number_of (select (λ (g : GenInfo). g.is_current) (list s)))
      ≡ mem_number c (map dir_number s.dirs)
unfolding list is_current_number
mem-current c s h =
    rw select-is_current
      (mem-listed s.current (λ m. is_current_number s.current m) c s.dirs ∙ rw h (ground arith))

mem-survivors :
    (keep n : ℕ) (gens : List GenInfo)
    → mem_number n (survivors keep gens) ≡ (
        mem_number n (map number_of (drop (length gens - keep) gens))
        || (mem_number n (map number_of (select (λ (g : GenInfo). g.is_current) gens))
            || mem_number n (option_list (newest_complete gens))))
unfolding survivors
mem-survivors keep n gens = simp mem_number-append

restore_dir_files : (d : GenDir) (s t : Generations) → (restore_dir d s).0 ≡ (restore_dir d t).0
unfolding restore_dir
restore_dir_files d s t = ground arith

restore_of_found :
    (n : ℕ) (s t : Generations)
    → find_dir s.dirs n ≡ find_dir t.dirs n
    → (restore n s).0 ≡ (restore n t).0
unfolding restore
restore_of_found n s t e = elim (Option-cases (find_dir t.dirs n)) [
  | inl absent ↦ ground arith
  | inr (d, found) ↦ ground (arith, restore_dir_files d s t)
]

-- Whatever `keep` is, where there is a current generation and a complete one, pruning leaves the
-- current generation as it is, and a rollback to the newest complete one answers as before.
pub prune_keeps :
    (deletable : ℕ → Bool) (keep c n : ℕ) (s : Generations)
    → s.current ≡ some c
    → newest_complete (list s) ≡ some n
    → (find_dir (prune deletable keep s).1.dirs c ≡ find_dir s.dirs c)
      × ((restore n (prune deletable keep s).1).0 ≡ (restore n s).0)
prune_keeps deletable keep c n s h k = (
  same c (λ m. ground (arith, mem-survivors keep c (list s), mem-current c s h)),
  restore_of_found n (prune deletable keep s).1 s (
      same n (λ _. unfold mem_number option_list in ground (arith, mem-survivors keep n (list s)))),
)
  where
    same :
        (x : ℕ)
        → (mem_number x (map dir_number s.dirs) ≡ true
            → mem_number x (survivors keep (list s)) ≡ true)
        → find_dir (prune deletable keep s).1.dirs x ≡ find_dir s.dirs x
    same x survives = elim (Bool-cases (mem_number x (map dir_number s.dirs))) [
      | inl m ↦ (prune_lem deletable keep x s).1 ∙ ground (arith, survives m)
      | inr a ↦ (prune_lem deletable keep x s).1 ∙ ground (arith, find_dir-absent x s.dirs a)
    ]
