-- ===== src/Client/Session/Laws.antt =====
-- The steps of a client's code.
use hyper_beam.Common.{◌≡◌, List, [], ◌∷◌, Option, some, arith}
use hyper_beam.Messages.Terms.{ErlTerm}
use hyper_beam.Client.Session.{
  Session, Flow, value, raised, blocked, undefined, unfinished, Action, ◌>>=◌, ◌>>◌, receive,
}

-- A chain whose first part has a value goes on with it; one whose first part raises, raises.
pub bind-value :
    {A B : Type 0} (m : Action A) (f : A → Action B) (s : Session) {s' : Session} {a : A}
    {r : Flow B}
    → m s ≡ value a s'
    → f a s' ≡ r
    → (m >>= f) s ≡ r
bind-value m f s e h = ground (arith, e, h)

pub bind-raised :
    {A B : Type 0} (m : Action A) (f : A → Action B) (s : Session) {s' : Session}
    → m s ≡ raised s'
    → (m >>= f) s ≡ raised s'
bind-raised m f s e = ground (arith, e)

pub bind-blocked :
    {A B : Type 0} (m : Action A) (f : A → Action B) (s : Session)
    → m s ≡ blocked
    → (m >>= f) s ≡ blocked
bind-blocked m f s e = ground (arith, e)

pub bind-undefined :
    {A B : Type 0} (m : Action A) (f : A → Action B) (s : Session)
    → m s ≡ undefined
    → (m >>= f) s ≡ undefined
bind-undefined m f s e = ground (arith, e)

-- What a receive takes when the first message fits.
pub receive-first :
    {A : Type 0} (fits : ErlTerm → Option A) (s : Session) (t : ErlTerm) (ts : List ErlTerm) {a : A}
    → s.inbox ≡ t ∷ ts
    → fits t ≡ some a
    → receive fits s ≡ value a (record s { inbox = ts })
unfolding receive
receive-first fits s t ts e fit = ground (arith, e, fit)

pub bind-unfinished :
    {A B : Type 0} (m : Action A) (f : A → Action B) (s : Session)
    → m s ≡ unfinished
    → (m >>= f) s ≡ unfinished
bind-unfinished m f s e = ground (arith, e)

-- A chain of three parts, whose first two come to a value.
pub bind-chain :
    {A B C : Type 0} (m : Action A) (n : Action B) (f : B → Action C) (s : Session) {s' : Session}
    {b : B} {r : Flow C}
    → (m >> n) s ≡ value b s'
    → f b s' ≡ r
    → (m >> (n >>= f)) s ≡ r
bind-chain m n f s e h = ground (arith, e, h)

pub receive-blocks :
    {A : Type 0} (fits : ErlTerm → Option A) (s : Session) → s.inbox ≡ [] → receive fits s ≡ blocked
unfolding receive
receive-blocks fits s e = ground (arith, e)
