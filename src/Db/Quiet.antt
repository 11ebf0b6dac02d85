-- ===== src/Db/Quiet.antt =====
-- Runs of which no other session writes a profile meanwhile, and rules for what such a run ensures.
use inwheel_server.Prelude.{
  ◌+◌, ℕ, String, none, some, List, [], ◌∷◌, ◌≡◌, ◌⊎◌, sym, subst, arith, inl, inr, Option-cases,
  List-cases,
}
use inwheel_server.Prelude.Result.{
  Error, Result, ok, err, wrap_err, Action, continue, ◌>>=◌, annotate,
}
use inwheel_server.Db.{Db, Step, statement}

-- No other session writes a profile while the script lasts.
abbrev pub IsQuiet : List Step → Type 0
IsQuiet [] = Unit
IsQuiet (step ∷ rest) = (step.arrival ≡ none) × IsQuiet rest

-- After a success `Q` holds of the answer and the database; either way the rest of the run is quiet.
abbrev pub Ends : {A : Type 0} → (A → Db → Type 0) → Result A × Db → Type 0
Ends Q (ok a, db) = Q a db × IsQuiet db.script
Ends Q (err e, db) = IsQuiet db.script

abbrev pub Ensures : {A : Type 0} → (Db → Type 0) → Action Db A → (A → Db → Type 0) → Type 0
Ensures P m Q = (db : Db) → P db → IsQuiet db.script → Ends Q (m db)

-- What depends on neither the clock nor the script.
abbrev pub IsTimeless : (Db → Type 0) → Type 0
IsTimeless P =
    (db : Db) (t : ℕ) (rest : List Step)
    → P db
    → P (record db { clock = db.clock + t; script = rest })

Ends-continue :
    {A B : Type 0} (Q : A → Db → Type 0) (R : B → Db → Type 0) (f : A → Action Db B) (r : Result A)
    (db : Db)
    → Ends Q (r, db)
    → ((a : A) → Ensures (Q a) (f a) R)
    → Ends R (continue r f db)
Ends-continue Q R f (ok a) db (h, quiet) k = k a db h quiet
Ends-continue Q R f (err e) db quiet k = quiet

pub Ensures-bind :
    {A B : Type 0} (P : Db → Type 0) (Q : A → Db → Type 0) (R : B → Db → Type 0) (m : Action Db A)
    (f : A → Action Db B)
    → Ensures P m Q
    → ((a : A) → Ensures (Q a) (f a) R)
    → Ensures P (m >>= f) R
Ensures-bind P Q R m f h k db p quiet = Ends-continue Q R f (m db).0 (m db).1 (h db p quiet) k

Ends-wrap :
    {A : Type 0} (Q : A → Db → Type 0) (context : String) (r : Result A) (db : Db)
    → Ends Q (r, db)
    → Ends Q (wrap_err context r, db)
Ends-wrap Q context (ok a) db h = h
Ends-wrap Q context (err e) db h = h

pub Ensures-annotate :
    {A : Type 0} (P : Db → Type 0) (Q : A → Db → Type 0) (context : String) (m : Action Db A)
    → Ensures P m Q
    → Ensures P (annotate context m) Q
Ensures-annotate P Q context m h db p quiet = Ends-wrap Q context (m db).0 (m db).1 (h db p quiet)

-- Past the end of the script.
pub statement-quiet :
    {A : Type 0} (body : Action Db A) (db : Db) → db.script ≡ [] → statement body db ≡ body db
unfolding statement
statement-quiet body db calm = ground (arith, calm)

statement-step :
    {A : Type 0} (body : Action Db A) (db : Db) (step : Step) (rest : List Step)
    → db.script ≡ step ∷ rest
    → step.arrival ≡ none
    → step.fault ≡ none
    → statement body db ≡ body (record db { clock = db.clock + step.elapsed; script = rest })
unfolding statement
statement-step body db step rest e none' f = ground (arith, e, none', f)

statement-fault :
    {A : Type 0} (body : Action Db A) (db : Db) (step : Step) (rest : List Step) (x : Error)
    → db.script ≡ step ∷ rest
    → step.arrival ≡ none
    → step.fault ≡ some x
    → statement body db ≡ (err x, record db { clock = db.clock + step.elapsed; script = rest })
unfolding statement
statement-fault body db step rest x e none' f = ground (arith, e, none', f)

-- A statement acts as its body, or fails, where `P` still holds.
statement-meets :
    {A : Type 0} (P : Db → Type 0) (body : Action Db A)
    → IsTimeless P
    → (db : Db) → P db
    → IsQuiet db.script
    → (s : Db) × P s
      × IsQuiet s.script
      × ((statement body db ≡ body s) ⊎ ((x : Error) × (statement body db ≡ (err x, s))))
statement-meets P body timeless db p quiet = elim (List-cases db.script) [
  | inl e ↦ (db, p, quiet, inl (statement-quiet body db e))
  | inr (step, rest, e) ↦
      let (none', quiet') : (step.arrival ≡ none) × IsQuiet rest = subst IsQuiet e quiet in
      let later = timeless db step.elapsed rest p in
      (
        record db { clock = db.clock + step.elapsed; script = rest },
        later,
        quiet',
        elim (Option-cases step.fault) [
          | inl f ↦ inl (statement-step body db step rest e none' f)
          | inr (x, f) ↦ inr (x, statement-fault body db step rest x e none' f)
        ],
      )
]

pub Ensures-statement :
    {A : Type 0} (P : Db → Type 0) (Q : A → Db → Type 0) (body : Action Db A)
    → IsTimeless P
    → Ensures P body Q
    → Ensures P (statement body) Q
Ensures-statement P Q body timeless h db p quiet =
    let (s, p', quiet', cases) = statement-meets P body timeless db p quiet in
    elim cases [
      | inl e ↦ subst (Ends Q) (sym e) (h s p' quiet')
      | inr (x, e) ↦ subst (Ends Q) (sym e) quiet'
    ]

-- What the body keeps, whatever it answers, the statement keeps.
pub statement-keeps :
    {A : Type 0} (P : Db → Type 0) (body : Action Db A)
    → IsTimeless P
    → ((s : Db) → P s → IsQuiet s.script → P (body s).1 × IsQuiet (body s).1.script)
    → (db : Db) → P db
    → IsQuiet db.script
    → P (statement body db).1 × IsQuiet (statement body db).1.script
statement-keeps P body timeless h db p quiet =
    let (s, p', quiet', cases) = statement-meets P body timeless db p quiet in
    elim cases [
      | inl e ↦ subst (λ (r : Result _ × Db). P r.1 × IsQuiet r.1.script) (sym e) (h s p' quiet')
      | inr (x, e) ↦ subst (λ (r : Result _ × Db). P r.1 × IsQuiet r.1.script) (sym e) (p', quiet')
    ]
