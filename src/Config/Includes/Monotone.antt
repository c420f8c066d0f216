-- ===== src/Config/Includes/Monotone.antt =====
-- dasik/lib/json_parser/includes.py: what is resolved inside an included file is resolved to the same
-- value on its own.
use dasik.Base.{
  ℕ, zero, suc, ◌≤◌, String, ◌≡◌, refl, arith, inl, inr, false, Option, List, [], ◌∷◌, ◌++◌, mem,
  mem-append, ◌==◌, Json, null, bool, num, str, arr, obj, Items, nil, cons, Fields, end, field,
  Bool-cases, Option-cases,
}
use dasik.Config.Files.{FilePath, Files, Outcome, done, failed, ◌>>=◌, resolve_path, parent, read}
use dasik.Config.Includes.{
  has_directive, append_items, items_in, resolve, resolve_items, resolve_fields, resolve_directive,
  resolve_concat, resolve_members, line_of, include, read_directive, load_file,
}

-- Where the first gives a value, the second gives it too.
abbrev pub Gives {ℓ} : {A : Type ℓ} → Outcome A → Outcome A → Type ℓ
Gives o p = (a : _) → o ≡ done a → p ≡ done a

Gives-refl {ℓ} : {A : Type ℓ} (o : Outcome A) → Gives o o
Gives-refl o a e = e

Gives-bind {ℓ κ} :
    {A : Type ℓ} {B : Type κ} (o p : Outcome A) (f g : A → Outcome B)
    → Gives o p
    → ((a : A) → Gives (f a) (g a))
    → Gives (o >>= f) (p >>= g)
Gives-bind (done a) p f g h k b e = rw (h a refl) (k a b e)
Gives-bind (failed x) p f g h k b e = cc

abbrev pub LoadsGive : (String → Json → Outcome Json) → (String → Json → Outcome Json) → Type 0
LoadsGive load load' = (k : String) (v : Json) → Gives (load k v) (load' k v)

mutual
  unfolding resolve

  pub resolve-Gives :
      (load load' : String → Json → Outcome Json)
      → LoadsGive load load'
      → (v : Json) → Gives (resolve load v) (resolve load' v)
  resolve-Gives load load' h (arr xs) =
      Gives-bind (resolve_items load xs) (resolve_items load' xs) _ _
        (resolve_items-Gives load load' h xs) (λ ys. Gives-refl (done (arr ys)))
  resolve-Gives load load' h (obj fs) = elim (Bool-cases (has_directive fs)) [
    | inl e ↦ rw (e, resolve) (resolve_directive-Gives load load' h fs)
    | inr e ↦
        rw (e, resolve)
          (Gives-bind (resolve_fields load fs) (resolve_fields load' fs) _ _
            (resolve_fields-Gives load load' h fs) (λ gs. Gives-refl (done (obj gs))))
  ]
  resolve-Gives load load' h null = Gives-refl (done null)
  resolve-Gives load load' h (bool b) = Gives-refl (done (bool b))
  resolve-Gives load load' h (num n) = Gives-refl (done (num n))
  resolve-Gives load load' h (str s) = Gives-refl (done (str s))

  resolve_items-Gives :
      (load load' : String → Json → Outcome Json)
      → LoadsGive load load'
      → (xs : Items) → Gives (resolve_items load xs) (resolve_items load' xs)
  resolve_items-Gives load load' h nil = Gives-refl (done nil)
  resolve_items-Gives load load' h (cons x xs) =
      Gives-bind (resolve load x) (resolve load' x) _ _ (resolve-Gives load load' h x) (λ y.
        Gives-bind (resolve_items load xs) (resolve_items load' xs) _ _
          (resolve_items-Gives load load' h xs) (λ ys. Gives-refl (done (cons y ys))))

  resolve_fields-Gives :
      (load load' : String → Json → Outcome Json)
      → LoadsGive load load'
      → (fs : Fields) → Gives (resolve_fields load fs) (resolve_fields load' fs)
  resolve_fields-Gives load load' h end = Gives-refl (done end)
  resolve_fields-Gives load load' h (field j v fs) =
      Gives-bind (resolve load v) (resolve load' v) _ _ (resolve-Gives load load' h v) (λ w.
        Gives-bind (resolve_fields load fs) (resolve_fields load' fs) _ _
          (resolve_fields-Gives load load' h fs) (λ gs. Gives-refl (done (field j w gs))))

  resolve_directive-Gives :
      (load load' : String → Json → Outcome Json)
      → LoadsGive load load'
      → (fs : Fields) → Gives (resolve_directive load fs) (resolve_directive load' fs)
  resolve_directive-Gives load load' h end = λ a e. cc
  resolve_directive-Gives load load' h (field j v end) = elim (Bool-cases (j == "$concat")) [
    | inl e ↦ rw (e, resolve_directive) (resolve_concat-Gives load load' h v)
    | inr e ↦ rw (e, resolve_directive) (h j v)
  ]
  resolve_directive-Gives load load' h (field j v (field i w fs)) = λ a e. cc

  resolve_concat-Gives :
      (load load' : String → Json → Outcome Json)
      → LoadsGive load load'
      → (v : Json) → Gives (resolve_concat load v) (resolve_concat load' v)
  resolve_concat-Gives load load' h (arr xs) =
      Gives-bind (resolve_members load xs) (resolve_members load' xs) _ _
        (resolve_members-Gives load load' h xs) (λ ys. Gives-refl (done (arr ys)))
  resolve_concat-Gives load load' h null = λ a e. cc
  resolve_concat-Gives load load' h (bool b) = λ a e. cc
  resolve_concat-Gives load load' h (num n) = λ a e. cc
  resolve_concat-Gives load load' h (str s) = λ a e. cc
  resolve_concat-Gives load load' h (obj fs) = λ a e. cc

  resolve_members-Gives :
      (load load' : String → Json → Outcome Json)
      → LoadsGive load load'
      → (xs : Items) → Gives (resolve_members load xs) (resolve_members load' xs)
  resolve_members-Gives load load' h nil = Gives-refl (done nil)
  resolve_members-Gives load load' h (cons x xs) =
      Gives-bind (resolve load x) (resolve load' x) _ _ (resolve-Gives load load' h x) (λ y.
        Gives-bind (items_in y) (items_in y) _ _ (Gives-refl (items_in y)) (λ ys.
          Gives-bind (resolve_members load xs) (resolve_members load' xs) _ _
            (resolve_members-Gives load load' h xs) (λ zs. Gives-refl (done (append_items ys zs)))))

-- With a shorter chain there are fewer cycles to report.
abbrev pub Fewer : List String → List String → Type 0
Fewer chain chain' = (r : String) → mem r chain ≡ false → mem r chain' ≡ false

Fewer-append :
    (chain chain' : List String) (real : String)
    → Fewer chain chain'
    → Fewer (chain ++ real ∷ []) (chain' ++ real ∷ [])
Fewer-append chain chain' real h r e =
    ground (arith, h r, mem-append r chain (real ∷ []), mem-append r chain' (real ∷ []))

read_directive-Gives :
    (loads : String → Option Json)
    (enter enter' : FilePath → List String → String → Json → Outcome Json) (real : String)
    (path : FilePath) (chain chain' : List String) (k text : String)
    → Fewer chain chain'
    → LoadsGive
        (enter (parent path) (chain ++ real ∷ []))
        (enter' (parent path) (chain' ++ real ∷ []))
    → Gives
        (read_directive loads enter real path chain k text)
        (read_directive loads enter' real path chain' k text)
unfolding read_directive include
read_directive-Gives loads enter enter' real path chain chain' k text h g =
    elim (Bool-cases (k == "$include_text")) [
      | inl e ↦ rw (e, read_directive) (Gives-refl (done (str text)))
      | inr e ↦ elim (Bool-cases (k == "$include_line")) [
        | inl l ↦ rw (e, l, read_directive) (Gives-refl (line_of text))
        | inr l ↦
            rw (e, l, read_directive)
              (elim (Bool-cases (mem real chain)) [
                | inl m ↦ rw (m, include) (λ a q. cc)
                | inr m ↦ elim (Option-cases (loads text)) [
                  | inl n ↦ rw (m, h real m, n, include) (λ a q. cc)
                  | inr (v, n) ↦ rw (m, h real m, n, include) (resolve-Gives _ _ g v)
                ]
              ])
      ]
    ]

module _ (files : Files) (loads : String → Option Json) where
  -- With more fuel, and with a shorter chain, a directive gives what it gave.
  pub load_file-Gives :
      (f g : ℕ) (base : FilePath) (chain chain' : List String)
      → f ≤ g
      → Fewer chain chain'
      → LoadsGive (load_file files loads f base chain) (load_file files loads g base chain')
  unfolding load_file
  load_file-Gives zero g base chain chain' l h k v = λ a e. cc
  load_file-Gives (suc f) zero base chain chain' l h k v = absurd (omega arith)
  load_file-Gives (suc f) (suc g) base chain chain' l h k v =
      Gives-bind (resolve_path v base) (resolve_path v base) _ _ (Gives-refl (resolve_path v base))
        (λ path.
          Gives-bind (read files path) (read files path) _ _ (Gives-refl (read files path)) (λ text.
            let real : String = files.real_path path in
            read_directive-Gives loads (load_file files loads f) (load_file files loads g) real path
              chain chain' k text h
              (load_file-Gives f g (parent path) (chain ++ real ∷ []) (chain' ++ real ∷ [])
                (omega arith) (Fewer-append chain chain' real h))))
