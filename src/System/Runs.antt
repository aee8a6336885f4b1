-- ===== src/System/Runs.antt =====
-- A program that runs between the transactions of others, as a run of the system: rules for each way
-- that Delivery/Run puts a pass together.
use hh_game_market_backend.Base.{ℕ, Option, some}
use hh_game_market_backend.Model.{
  RequestId, DiscrepancyKind, Db, Error, Result, ok, err, Action, gets,
}
use hh_game_market_backend.Delivery.Run.{
  Env, Run, pure, raise, try_catch, commit, call, ◌>>=◌, ◌>>◌,
}
use hh_game_market_backend.Delivery.Journal.{discrepancy}
use hh_game_market_backend.Books.{BooksOf}
use hh_game_market_backend.System.{Step, finds, Reach, here, next}
use hh_game_market_backend.System.Books.{Reach-BooksOf}

pub Reach-trans : {a b c : Db} → Reach a b → Reach b c → Reach a c
Reach-trans r here = r
Reach-trans r (next s t) = next (Reach-trans r s) t

pub one_step : {a b : Db} → Step a b → Reach a b
one_step s = next here s

-- A finding about a supplier is a step.
pub discrepancy-Step :
    (supplier : ℕ) (request : RequestId) (item_id : ℕ) (kind : DiscrepancyKind) (code : ℕ)
    (ours : Option ℕ) (d : Db)
    → Step d (discrepancy supplier request item_id kind code ours d).1
unfolding discrepancy
discrepancy-Step supplier request item_id kind code ours d =
    finds
      (record {
        supplier = supplier;
        request_id = request;
        order_item_id = some item_id;
        kind = kind;
        supplier_code = some code;
        our_code = ours;
      })
      d

module _ (env : Env) where
  open env use {World, others}

  -- The other instances take steps of the system too.
  abbrev pub Live : Type 0
  Live = (w : World) (d : Db) → BooksOf d → Reach d (others w d).1

  -- Started where the books add up and `P` holds, the program ends where steps lead, in whatever way
  -- it ends.
  abbrev pub Keeps : {A : Type 0} (P : Db → Type 0) → Run World A → Type 0
  Keeps P m = (w : World) (d : Db) → BooksOf d → P d → Reach d (m w d).2

  -- What the others cannot undo.
  abbrev pub Stable : (Db → Type 0) → Type 0
  Stable P = (a b : Db) → Reach a b → BooksOf a → P a → P b

  module _ (P : Db → Type 0) where
    pub Keeps-pure : {A : Type 0} (a : A) → Keeps P (pure a)
    Keeps-pure a w d books p = here

    pub Keeps-raise : (A : Type 0) (e : Error) → Keeps {A = A} P (raise e)
    Keeps-raise A e w d books p = here

    pub Keeps-call : {A : Type 0} (f : World → A × World) → Keeps P (call env f)
    Keeps-call f w d books p = here

    module _ (live : Live) (stable : Stable P) where
      pub Keeps-commit :
          {A : Type 0} (m : Action A)
          → ((d : Db) → BooksOf d → P d → Reach d (m d).1)
          → Keeps P (commit env m)
      Keeps-commit m steps w d books p =
          let r = live w d books in
          Reach-trans r (steps (others w d).1 (Reach-BooksOf r books) (stable _ _ r books p))

      pub Keeps-step :
          {A : Type 0} (m : Action A) → ((d : Db) → P d → Step d (m d).1) → Keeps P (commit env m)
      Keeps-step m step = Keeps-commit m (λ d books p. one_step (step d p))

      pub Keeps-gets : {A : Type 0} (f : Db → A) → Keeps P (commit env (gets f))
      Keeps-gets f = Keeps-commit (gets f) (λ d books p. here)

      pub Keeps-bind :
          {A B : Type 0} (m : Run World A) (f : A → Run World B)
          → Keeps P m
          → ((a : A) → Keeps P (f a))
          → Keeps P (m >>= f)
      Keeps-bind {A = A} {B = B} m f first rest w d books p = go (m w d).0
        where
          r : Reach d (m w d).2
          r = first w d books p

          go :
              (x : Result A)
              → Reach d
                  (elim x as (λ _. Result B × World × Db) [
                    | ok a ↦ f a (m w d).1 (m w d).2
                    | err e ↦ (err e, (m w d).1, (m w d).2)
                  ]).2
          go (ok a) = Reach-trans r (rest a _ _ (Reach-BooksOf r books) (stable _ _ r books p))
          go (err e) = r

      pub Keeps-then :
          {A B : Type 0} (m : Run World A) (k : Run World B)
          → Keeps P m
          → Keeps P k
          → Keeps P (m >> k)
      Keeps-then m k first rest = Keeps-bind m (λ _. k) first (λ _. rest)

      pub Keeps-catch :
          {A : Type 0} (m : Run World A) (h : Error → Run World A)
          → Keeps P m
          → ((e : Error) → Keeps P (h e))
          → Keeps P (try_catch m h)
      Keeps-catch {A = A} m h first rest w d books p = go (m w d).0
        where
          r : Reach d (m w d).2
          r = first w d books p

          go :
              (x : Result A)
              → Reach d
                  (elim x as (λ _. Result A × World × Db) [
                    | ok a ↦ (ok a, (m w d).1, (m w d).2)
                    | err e ↦ h e (m w d).1 (m w d).2
                  ]).2
          go (ok a) = r
          go (err e) = Reach-trans r (rest e _ _ (Reach-BooksOf r books) (stable _ _ r books p))
