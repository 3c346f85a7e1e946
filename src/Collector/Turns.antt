-- ===== src/Collector/Turns.antt =====
-- Goroutines that each keep patient rules keep them together, whoever's turn it is, and each of them
-- reaches its own goal unless one has returned an error.
use oadp_non_admin.Base.{
  ℕ, zero, suc, ◌≡◌, refl, sym, subst, ◌⊎◌, inl, inr, Option, none, some, List, [], ◌∷◌,
}
use oadp_non_admin.Kube.Status.{Error}
use oadp_non_admin.Kube.Api.{Call, Prog, ret, fail, panic, call, event, History, Server}
use oadp_non_admin.Kube.Rules.{Rules, Keeps, Obeys}
use oadp_non_admin.Kube.Facts.{Includes, Includes-refl, Includes-next, Stays, Patient, Keeps-later}
use oadp_non_admin.Collector.Group.{Group, first_of, advance, turn_among, turn, take_turns}

-- What a goroutine is to have reached.
abbrev pub Goal : Type 1
Goal = History → Type 0

abbrev pub IsError : Option Error → Type 0
IsError none = ⊥
IsError (some e) = Unit

first_of-IsError : (d : Option Error) (e : Error) → IsError (first_of d e)
first_of-IsError none e = tt
first_of-IsError (some d) e = tt

abbrev pub AllStay : List Goal → Type 1
AllStay [] = Unit
AllStay (G ∷ Gs) = Stays G × AllStay Gs

abbrev pub Reached : List Goal → History → Type 0
Reached [] h = Unit
Reached (G ∷ Gs) h = G h × Reached Gs h

-- Every goroutine is through.
abbrev pub IsThrough : List (Prog (Unit {0})) → Type 0
IsThrough [] = Unit
IsThrough (m ∷ ms) = (m ≡ ret tt) × IsThrough ms

module _ (R : Rules) where
  -- The error is one that the rules name.
  abbrev pub Explained : History → Option Error → Type 0
  Explained h none = Unit
  Explained h (some e) = R.errs h e

  -- A goroutine keeps the rules up to its goal, or one has returned an error and it is through.
  abbrev pub Sound : Goal → History → Option Error → Prog (Unit {0}) → Type 0
  Sound G h d m = Keeps R (λ g _. G g) h m ⊎ ((m ≡ ret tt) × IsError d)

  abbrev pub AllSound : List Goal → History → Option Error → List (Prog (Unit {0})) → Type 0
  AllSound [] h d [] = Unit
  AllSound (G ∷ Gs) h d (m ∷ ms) = Sound G h d m × AllSound Gs h d ms
  AllSound _ h d _ = ⊥

  -- From one state of a group to a later one.
  pub record Later (h : History) (d : Option Error) (g : History) (e : Option Error) : Type 1 where
    pub includes : Includes h g
    pub obeys : Obeys R g
    pub explained : Explained g e
    pub still : IsError d → IsError e

  module _ (patient : Patient R) (calm : ¬ R.panics) (s : Server)
      (lawful : (h : History) (c : Call) → R.lawful c (s h c)) where
    Explained-later :
        (h g : History) (d : Option Error) → Includes h g → Explained h d → Explained g d
    Explained-later h g none i x = tt
    Explained-later h g (some e) i x = patient.failed e h g i x

    Explained-first :
        (h : History) (d : Option Error) (e : Error)
        → Explained h d
        → R.errs h e
        → Explained h (first_of d e)
    Explained-first h none e x y = y
    Explained-first h (some d) e x y = x

    -- Whatever the others do, a sound goroutine stays sound.
    Sound-later :
        (G : Goal) (h g : History) (d e : Option Error) (m : Prog (Unit {0}))
        → Stays G
        → Includes h g
        → (IsError d → IsError e)
        → Sound G h d m
        → Sound G g e m
    Sound-later G h g d e m t i f (inl k) =
        inl (Keeps-later R (λ x _. G x) patient (λ _. t) h g m i k)
    Sound-later G h g d e m t i f (inr (p, q)) = inr (p, f q)

    AllSound-later :
        (Gs : List Goal) (h g : History) (d e : Option Error) (ms : List (Prog (Unit {0})))
        → AllStay Gs
        → Includes h g
        → (IsError d → IsError e)
        → AllSound Gs h d ms
        → AllSound Gs g e ms
    AllSound-later [] h g d e [] t i f a = tt
    AllSound-later [] h g d e (m ∷ ms) t i f a = absurd a
    AllSound-later (G ∷ Gs) h g d e [] t i f a = absurd a
    AllSound-later (G ∷ Gs) h g d e (m ∷ ms) t i f a =
        (Sound-later G h g d e m t.0 i f a.0, AllSound-later Gs h g d e ms t.1 i f a.1)

    -- One goroutine's turn.
    advance-Sound :
        (G : Goal) (h : History) (d : Option Error) (m : Prog (Unit {0}))
        → Obeys R h
        → Explained h d
        → Keeps R (λ g _. G g) h m
        → let o = advance s h d m in Later h d o.0 o.1 × Sound G o.0 o.1 o.2
    unfolding advance
    advance-Sound G h d (ret a) o x k =
        (record { includes = Includes-refl h; obeys = o; explained = x; still = λ y. y }, inl k)
    advance-Sound G h d (fail e) o x k = (
      record {
        includes = Includes-refl h;
        obeys = o;
        explained = Explained-first h d e x k;
        still = λ _. first_of-IsError d e;
      },
      inr (refl, first_of-IsError d e),
    )
    advance-Sound G h d panic o x k = absurd (calm k)
    advance-Sound G h d (call c f) o x k = (
      record {
        includes = Includes-next (event c (s h c)) h;
        obeys = (k.0, o);
        explained = Explained-later h (event c (s h c) ∷ h) d (Includes-next (event c (s h c)) h) x;
        still = λ y. y;
      },
      inl (k.1 (s h c) (lawful h c)),
    )

    Sound-advance :
        (G : Goal) (h : History) (d : Option Error) (m : Prog (Unit {0}))
        → Obeys R h
        → Explained h d
        → Sound G h d m
        → let o = advance s h d m in Later h d o.0 o.1 × Sound G o.0 o.1 o.2
    unfolding advance
    Sound-advance G h d m o x (inl k) = advance-Sound G h d m o x k
    Sound-advance G h d m o x (inr (p, q)) =
        subst (λ n. let o = advance s h d n in Later h d o.0 o.1 × Sound G o.0 o.1 o.2) (sym p)
          (
            record { includes = Includes-refl h; obeys = o; explained = x; still = λ y. y },
            inr (refl, q),
          )

    turn_among-Sound :
        (i : ℕ) (Gs : List Goal) (h : History) (d : Option Error) (ms : List (Prog (Unit {0})))
        → AllStay Gs
        → Obeys R h
        → Explained h d
        → AllSound Gs h d ms
        → let o = turn_among s i h d ms in
          Later h d o.history o.first_error × AllSound Gs o.history o.first_error o.running
    unfolding turn_among
    turn_among-Sound i [] h d [] t o x a =
        (record { includes = Includes-refl h; obeys = o; explained = x; still = λ y. y }, tt)
    turn_among-Sound i [] h d (m ∷ ms) t o x a = absurd a
    turn_among-Sound i (G ∷ Gs) h d [] t o x a = absurd a
    turn_among-Sound zero (G ∷ Gs) h d (m ∷ ms) t o x a =
        let (l, k) = Sound-advance G h d m o x a.0 in
        let c = advance s h d m in
        (l, (k, AllSound-later Gs h c.0 d c.1 ms t.1 l.includes l.still a.1))
    turn_among-Sound (suc i) (G ∷ Gs) h d (m ∷ ms) t o x a =
        let c = turn_among s i h d ms in
        let (l, k) = turn_among-Sound i Gs h d ms t.1 o x a.1 in
        (l, (Sound-later G h c.history d c.first_error m t.0 l.includes l.still a.0, k))

    -- The rules are kept under every schedule.
    pub take_turns-Sound :
        (is : List ℕ) (Gs : List Goal) (g : Group)
        → AllStay Gs
        → Obeys R g.history
        → Explained g.history g.first_error
        → AllSound Gs g.history g.first_error g.running
        → let o = take_turns s is g in
          Obeys R o.history
          × Explained o.history o.first_error
          × AllSound Gs o.history o.first_error o.running
    unfolding take_turns turn
    take_turns-Sound [] Gs g t o x a = (o, x, a)
    take_turns-Sound (i ∷ is) Gs g t o x a =
        let (l, k) = turn_among-Sound i Gs g.history g.first_error g.running t o x a in
        take_turns-Sound is Gs (turn s i g) t l.obeys l.explained k

  -- Sound goroutines that are through without an error have all reached their goals.
  pub Reached-through :
      (Gs : List Goal) (h : History) (ms : List (Prog (Unit {0})))
      → AllSound Gs h none ms
      → IsThrough ms
      → Reached Gs h
  Reached-through [] h ms a f = tt
  Reached-through (G ∷ Gs) h [] a f = absurd a
  Reached-through (G ∷ Gs) h (m ∷ ms) a f = (
    elim a.0 [ inl k ↦ subst (λ n. Keeps R (λ g _. G g) h n) f.0 k | inr (p, q) ↦ absurd q ],
    Reached-through Gs h ms a.1 f.1,
  )
