-- ===== src/Tracking/Prices.antt =====
-- The price of a listing and its price history, over `upsert_detail`.
use searchcar_desktop.Base.{
  ℕ, String, ◌≡◌, refl, inl, inr, Bool, true, false, ◌||◌, Option, none, some, List, [], ◌∷◌, ◌++◌,
  arith, all, ◌==◌, ==_refl, opt_eq, if◌then◌else◌, Bool-cases,
}
use searchcar_desktop.Json.{Json, Fields, get}
use searchcar_desktop.Tracking.Tables.{Car, CarRecord, Catalog}
use searchcar_desktop.Tracking.Events.{number_of, price_rows, current_price_of}

abbrev pub price_of : ℕ → CarRecord → Option ℕ
price_of id r = if r.car_id == id then number_of (get "price_krw" r.payload) else none

abbrev pub or_before : Option ℕ → Option ℕ → Option ℕ
or_before none before = before
or_before (some p) before = some p

-- the last price that the history has for a car
abbrev pub last_price : ℕ → List CarRecord → Option ℕ
last_price id [] = none
last_price id (r ∷ rs) = or_before (last_price id rs) (price_of id r)

abbrev pub recorded : Option ℕ → Option ℕ → Bool
recorded none last = true
recorded (some p) last = p == 0 || opt_eq last (some p)

-- the price of the car, if it has one that is not 0, is the last one of its history
abbrev pub priced : List CarRecord → Car → Bool
priced history c = recorded c.current_price (last_price c.id history)

abbrev pub prices_recorded : Catalog → Bool
prices_recorded db = all (priced db.price_history) db.cars

or_before_assoc : (a b c : Option ℕ) → or_before (or_before a b) c ≡ or_before a (or_before b c)
or_before_assoc none b c = refl
or_before_assoc (some p) b c = refl

last_price-append :
    (id : ℕ) (h : List CarRecord) (r : CarRecord)
    → last_price id (h ++ r ∷ []) ≡ or_before (price_of id r) (last_price id h)
last_price-append id [] r = ends (price_of id r)
  where
    ends : (o : Option ℕ) → o ≡ or_before o none
    ends none = refl
    ends (some p) = refl
last_price-append id (x ∷ h) r =
    rw (last_price-append id h r)
      (or_before_assoc (price_of id r) (last_price id h) (price_of id x))

append-nil : (h : List CarRecord) → h ++ [] ≡ h
append-nil [] = refl
append-nil (x ∷ h) = cc (append-nil h)

-- the rows of a car leave the prices of the others
pub price_rows-other :
    (id car : ℕ) (price old : Option ℕ) (offer : Json) (source : String) (detail : Fields)
    (h : List CarRecord)
    → (car == id) ≡ false
    → last_price id (h ++ price_rows car price old offer source detail) ≡ last_price id h
unfolding price_rows
price_rows-other id car none old offer source detail h d = rw (append-nil h) refl
price_rows-other id car (some p) old offer source detail h d =
    elim (Bool-cases (p == 0 || opt_eq old (some p))) [
      | inl e ↦ rw e (rw (append-nil h) refl)
      | inr e ↦ rw e (rw (last_price-append id h _) (rw d refl))
    ]

-- and record the price of their own
pub price_rows-recorded :
    (car : ℕ) (price old : Option ℕ) (offer : Json) (source : String) (detail : Fields)
    (h : List CarRecord)
    → recorded old (last_price car h) ≡ true
    → recorded
        (current_price_of price old)
        (last_price car (h ++ price_rows car price old offer source detail))
      ≡ true
unfolding price_rows
price_rows-recorded car none old offer source detail h k = rw (append-nil h) k
price_rows-recorded car (some p) old offer source detail h k =
    elim (Bool-cases (p == 0 || opt_eq old (some p))) [
      | inl e ↦ rw e (rw (append-nil h) (same old k e))
      | inr e ↦ rw e (rw (last_price-append car h _) (rw (==_refl car) (ground (arith, ==_refl p))))
    ]
  where
    same :
        (old : Option ℕ)
        → recorded old (last_price car h) ≡ true
        → (p == 0 || opt_eq old (some p)) ≡ true
        → recorded (some p) (last_price car h) ≡ true
    same none k e = ground arith
    same (some q) k e = ground (arith, k, e)
