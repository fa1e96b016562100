-- ===== src/Scheduler/Runs.antt =====
-- Lists of runs and of schedules: what the changes of one element keep.
use latchkit.Base.{
  ℕ, zero, suc, ◌-◌, ◌≤◌, ◌≡◌, refl, Bool, true, false, ◌||◌, List, [], ◌∷◌, ◌++◌, some, any, all,
  find, keep, length, update_first, arith, length-append, String, sym, subst, eq_iff,
}
use latchkit.Scheduler.Model.{ScheduleRun, Schedule, SchedulerState}
use latchkit.Scheduler.Operations.{update_last, has_schedule_id, put_schedule}
use latchkit.Scheduler.Foreground.{slice_last, drop, has_run_id}

module _ {ℓ} {A : Type ℓ} (p : A → Bool) where
  pub all-update_first :
      (q : A → Bool) (new : A) (xs : List A)
      → p new ≡ true
      → all p xs ≡ true
      → all p (update_first q (λ _. new) xs) ≡ true
  all-update_first q new [] n a = refl
  all-update_first q new (x ∷ xs) n a = ground (arith, all-update_first q new xs)

  pub all-find :
      (q : A → Bool) (xs : List A) (x : A) → all p xs ≡ true → find q xs ≡ some x → p x ≡ true
  all-find q [] x a e = cc
  all-find q (y ∷ xs) x a e = ground (arith, all-find q xs x)

  pub any-append : (xs ys : List A) → any p (xs ++ ys) ≡ (any p xs || any p ys)
  any-append [] ys = refl
  any-append (x ∷ xs) ys = ground (arith, any-append xs ys)

  pub any-drop : (n : ℕ) (xs : List A) → any p xs ≡ false → any p (drop n xs) ≡ false
  any-drop zero xs h = h
  any-drop (suc n) [] h = refl
  any-drop (suc n) (x ∷ xs) h = any-drop n xs (ground arith)

  pub any-slice_last : (n : ℕ) (xs : List A) → any p xs ≡ false → any p (slice_last n xs) ≡ false
  any-slice_last n xs h = ground (arith, any-drop (length xs - n) xs)

  pub any-update_first :
      (q : A → Bool) (new : A) (xs : List A)
      → p new ≡ false
      → any p xs ≡ false
      → any p (update_first q (λ _. new) xs) ≡ false
  any-update_first q new [] n h = refl
  any-update_first q new (x ∷ xs) n h = ground (arith, any-update_first q new xs)

  pub any-update_last :
      (q : A → Bool) (f : A → A) (xs : List A)
      → ((x : A) → p (f x) ≡ p x)
      → any p (update_last q f xs) ≡ any p xs
  any-update_last q f [] h = refl
  any-update_last q f (x ∷ xs) h = ground (arith, any-update_last q f xs h, h x)

  pub length-drop : (n : ℕ) (xs : List A) → length (drop n xs) ≡ length xs - n
  length-drop zero xs = omega arith
  length-drop (suc n) [] = omega arith
  length-drop (suc n) (x ∷ xs) = omega (arith, length-drop n xs)

  pub length-slice_last : (n : ℕ) (xs : List A) → 1 ≤ n → length (slice_last n xs) ≤ n
  length-slice_last n xs h = ground (arith, length-drop (length xs - n) xs)

  pub keep-drop_append :
      (k : ℕ) (xs : List A) (y : A)
      → any p xs ≡ false
      → p y ≡ true
      → k ≤ length xs
      → keep p (drop k (xs ++ y ∷ [])) ≡ y ∷ []
  keep-drop_append zero [] y a h l = ground arith
  keep-drop_append (suc k) [] y a h l = absurd (omega arith)
  keep-drop_append zero (x ∷ xs) y a h l = ground (arith, keep-drop_append zero xs y)
  keep-drop_append (suc k) (x ∷ xs) y a h l = keep-drop_append k xs y (ground arith) h (omega arith)

  pub keep-slice_last_append :
      (n : ℕ) (xs : List A) (y : A)
      → any p xs ≡ false
      → p y ≡ true
      → 1 ≤ n
      → keep p (slice_last n (xs ++ y ∷ [])) ≡ y ∷ []
  keep-slice_last_append n xs y a h l =
      ground
        (arith, keep-drop_append (length (xs ++ y ∷ []) - n) xs y a h, length-append xs (y ∷ []))

pub find-update_first :
    (id : String) (new run : ScheduleRun) (runs : List ScheduleRun)
    → find (has_run_id id) runs ≡ some run
    → new.id ≡ id
    → find (has_run_id id) (update_first (has_run_id id) (λ _. new) runs) ≡ some new
find-update_first id new run [] e s = cc
find-update_first id new run (r ∷ runs) e s =
    ground (arith, find-update_first id new run runs, eq_iff new.id id)

pub find-put_schedule :
    (id : String) (s old : Schedule) (state : SchedulerState)
    → find (has_schedule_id id) state.schedules ≡ some old
    → s.id ≡ id
    → find (has_schedule_id id) (put_schedule s state).schedules ≡ some s
find-put_schedule id s old state e same =
    subst
      (λ x.
        find (has_schedule_id id) (update_first (has_schedule_id x) (λ _. s) state.schedules)
        ≡ some s)
      (sym same) (go state.schedules e)
  where
    go :
        (items : List Schedule)
        → find (has_schedule_id id) items ≡ some old
        → find (has_schedule_id id) (update_first (has_schedule_id id) (λ _. s) items) ≡ some s
    go [] e = cc
    go (item ∷ items) e = ground (arith, go items, eq_iff s.id id)
