-- ===== src/Prelude/Table.antt =====
-- Rows of a database table under a text key: SELECT by key, UPDATE … WHERE, the count of the rows
-- that an UPDATE touches, and uniqueness of the key.
use Prim.Native.Nat.{ℕ, suc}
use Prim.Native.String.{String}
use mathlib.Core.Path.{◌≡◌, refl}
use mathlib.Core.Bool.{Bool, ◌&&◌}
use mathlib.Core.Option
use mathlib.Core.Option.{Option, none, some}
use mathlib.Core.List.{List, [], ◌∷◌, ◌++◌}
use native.Mathlib.Omega.{arith}
use text.Mathlib.Text.{◌==◌}
use text.Mathlib.TextEquality.{eq_iff}
use project_b_multi_agent.Prelude.{if◌then◌else◌}

module _ {ℓ} {A : Type ℓ} where
  abbrev pub amend : (A → Bool) → (A → A) → A → A
  amend p f r = if p r then f r else r

  -- UPDATE … SET f WHERE p
  unfoldable pub update_where : (A → Bool) → (A → A) → List A → List A
  update_where p f [] = []
  update_where p f (r ∷ rs) = amend p f r ∷ update_where p f rs

  -- the `rowcount` of that statement
  unfoldable pub count_where : (A → Bool) → List A → ℕ
  count_where p [] = 0
  count_where p (r ∷ rs) = if p r then suc (count_where p rs) else count_where p rs

  abbrev pub hits : (A → Bool) → Option A → ℕ
  hits p none = 0
  hits p (some r) = if p r then 1 else 0

module _ {ℓ} {A : Type ℓ} (key : A → String) where
  -- SELECT * WHERE key = k, `fetchone`
  unfoldable pub select : String → List A → Option A
  select k [] = none
  select k (r ∷ rs) = if key r == k then some r else select k rs

  -- the key is a PRIMARY KEY
  abbrev pub IsKeyed : List A → Type ℓ
  IsKeyed [] = Unit
  IsKeyed (r ∷ rs) = (select (key r) rs ≡ none) × IsKeyed rs

  pub select-update_where :
      (p : A → Bool) (f : A → A) (keeps : (r : A) → key (f r) ≡ key r) (k : String) (rs : List A)
      → select k (update_where p f rs) ≡ Option.map (amend p f) (select k rs)
  unfolding select update_where
  select-update_where p f keeps k [] = refl
  select-update_where p f keeps k (r ∷ rs) =
      ground (arith, keeps r, select-update_where p f keeps k rs)

  key-amend :
      (p : A → Bool) (f : A → A) (keeps : (r : A) → key (f r) ≡ key r) (r : A)
      → key (amend p f r) ≡ key r
  key-amend p f keeps r = ground (arith, keeps r)

  pub update_where-IsKeyed :
      (p : A → Bool) (f : A → A) (keeps : (r : A) → key (f r) ≡ key r) (rs : List A)
      → IsKeyed rs
      → IsKeyed (update_where p f rs)
  unfolding update_where
  update_where-IsKeyed p f keeps [] h = tt
  update_where-IsKeyed p f keeps (r ∷ rs) (h, hs) = (
    rw (select-update_where p f keeps, key-amend p f keeps r, h),
    update_where-IsKeyed p f keeps rs hs,
  )

  abbrev pub or_select : Option A → Option A → Option A
  or_select (some r) o = some r
  or_select none o = o

  pub select-append :
      (k : String) (rs : List A) (r : A)
      → select k (rs ++ r ∷ []) ≡ or_select (select k rs) (if key r == k then some r else none)
  unfolding select
  select-append k [] r = refl
  select-append k (x ∷ rs) r = ground (arith, select-append k rs r)

  -- An UPDATE of the row under `k`, as a reader of `j` sees it.
  pub select-update_key :
      (q : A → Bool) (f : A → A) (keeps : (r : A) → key (f r) ≡ key r) (k j : String) (rs : List A)
      → select j (update_where (λ r. key r == k && q r) f rs)
        ≡ (if k == j then Option.map (amend q f) (select j rs) else select j rs)
  unfolding select update_where
  select-update_key q f keeps k j [] = ground arith
  select-update_key q f keeps k j (r ∷ rs) = ground (
    arith,
    keeps r,
    eq_iff (key r) k,
    eq_iff (key r) j,
    eq_iff k j,
    select-update_key q f keeps k j rs,
  )

  pub select-update_key_all :
      (f : A → A) (keeps : (r : A) → key (f r) ≡ key r) (k j : String) (rs : List A)
      → select j (update_where (λ r. key r == k) f rs)
        ≡ (if k == j then Option.map f (select j rs) else select j rs)
  unfolding select update_where
  select-update_key_all f keeps k j [] = ground arith
  select-update_key_all f keeps k j (r ∷ rs) = ground (
    arith,
    keeps r,
    eq_iff (key r) k,
    eq_iff (key r) j,
    eq_iff k j,
    select-update_key_all f keeps k j rs,
  )

  pub append-IsKeyed :
      (rs : List A) (r : A) → IsKeyed rs → select (key r) rs ≡ none → IsKeyed (rs ++ r ∷ [])
  unfolding select
  append-IsKeyed [] r h new = (refl, tt)
  append-IsKeyed (x ∷ rs) r (h, hs) new = (
    ground (arith, select-append (key x) rs r, eq_iff (key x) (key r), eq_iff (key r) (key x)),
    append-IsKeyed rs r hs (ground arith),
  )

  count_where-none :
      (q : A → Bool) (k : String) (rs : List A)
      → select k rs ≡ none
      → count_where (λ r. key r == k && q r) rs ≡ 0
  unfolding select count_where
  count_where-none q k [] h = refl
  count_where-none q k (r ∷ rs) h = ground (arith, count_where-none q k rs)

  -- On a keyed table a statement for one key touches the row that SELECT finds, or none.
  pub count_where-select :
      (q : A → Bool) (k : String) (rs : List A)
      → IsKeyed rs
      → count_where (λ r. key r == k && q r) rs ≡ hits q (select k rs)
  unfolding select count_where
  count_where-select q k [] h = refl
  count_where-select q k (r ∷ rs) (h, hs) =
      ground (arith, eq_iff (key r) k, count_where-none q k rs, count_where-select q k rs hs)
