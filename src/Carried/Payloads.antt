-- ===== src/Carried/Payloads.antt =====
-- What q gets of the messages of a run, against what they were published as.
use mathlib.Core.List.{map-append, Sublist, sublist-append_left}
use mathlib.Core.List.Sublist
use kdb_solace.Base.{
  ℕ, Bool, suc, zero, ◌≡◌, refl, sym, ap, ap₂, subst, ◌∙◌, true, false, Option, none, some, List,
  [], ◌∷◌, ◌++◌, map, leb, length, ◌==◌, if◌then◌else◌, append-nil, append_assoc,
}
use kdb_solace.Memory.{Bytes}
use kdb_solace.Kdb.{K, Ks, nil, cons, cons_null, list, atom, Timespec}
use kdb_solace.Field.{Field, stream_of}
use kdb_solace.Decode.{Attachment, decode_from_solace}
use kdb_solace.Wire.{max_msg_size}
use kdb_solace.Events.{message_letter, Times, event_list, Header, make_message_list, Session}
use kdb_solace.Events.Arrivals.{event_text}
use kdb_solace.Events.Runs.{
  Receiver, Run, begin, event, message, looks, takes, kept_as, kept, kept_message,
}
use kdb_solace.Carried.Sent.{IsSendable, message_fields, arrived_message}
use kdb_solace.Carried.Arrive.{message-Decodes}

-- The element at an index, in a list of its own.
abbrev element : ℕ → Ks → List K
element i nil = []
element zero (cons x xs) = x ∷ []
element (suc i) (cons x xs) = element i xs
element zero (cons_null xs) = []
element (suc i) (cons_null xs) = element i xs

-- What a list that is told to q has of a message: its last element, if it is no event's.
abbrev pub payload : K → List K
payload (list (cons (atom t c) xs)) = if c == message_letter then element 5 xs else []
payload _ = []

abbrev pub payloads : List K → List K
payloads [] = []
payloads (y ∷ ys) = payload y ++ payloads ys

pub payloads-append : (ys zs : List K) → payloads (ys ++ zs) ≡ payloads ys ++ payloads zs
payloads-append [] zs = refl
payloads-append (y ∷ ys) zs =
    ap (λ l. payload y ++ l) (payloads-append ys zs)
    ∙ sym (append_assoc (payload y) (payloads ys) (payloads zs))

payload-event_list : (n : ℕ) (ts : Times) (text : Bytes) → payload (event_list n ts text) ≡ []
payload-event_list n ts text = refl

payload-make_message_list :
    (m : Header) (x : K) (n : ℕ) (now : Timespec) → payload (make_message_list m x n now) ≡ x ∷ []
unfolding make_message_list
payload-make_message_list m x n now = refl

-- As a list of one or none.
abbrev pub present : Option K → List K
present none = []
present (some x) = x ∷ []

-- Each list split in its last and those before.
map-append_one :
    {A B : Type 0} (g : A → B) (xs : List A) (l : List B) (b : B)
    → l ++ (b ∷ []) ≡ map g xs
    → (ys : List A) × (y : A) × (xs ≡ ys ++ (y ∷ [])) × (l ≡ map g ys) × (b ≡ g y)
map-append_one g [] [] b e = absurd cc
map-append_one g [] (c ∷ l) b e = absurd cc
map-append_one g (x ∷ []) [] b e = ([], x, refl, refl, cc)
map-append_one g (x ∷ y ∷ xs) [] b e = absurd cc
map-append_one g (x ∷ xs) (c ∷ l) b e =
    let tail : l ++ (b ∷ []) ≡ map g xs = cc in
    let head : c ≡ g x = cc in
    let (ys, y, split, same, last) = map-append_one g xs l b tail in
    (x ∷ ys, y, ap (λ r. x ∷ r) split, ap₂ ◌∷◌ head same, last)

abbrev pub AllSendable : List K → Type 0
AllSendable [] = Unit {0}
AllSendable (x ∷ xs) = IsSendable x × AllSendable xs

AllSendable-append : (xs ys : List K) → AllSendable (xs ++ ys) → AllSendable xs × AllSendable ys
AllSendable-append [] ys all = (tt, all)
AllSendable-append (x ∷ xs) ys (s, all) = let r = AllSendable-append xs ys all in ((s, r.0), r.1)

one_or_none-Sublist : (y : K) (b : Bool) → Sublist (payloads (if b then [] else y ∷ [])) (payload y)
one_or_none-Sublist y true = sublist-append_left [] (payload y)
one_or_none-Sublist y false =
    subst (λ l. Sublist l (payload y)) (sym (append-nil (payload y))) (Sublist.refl (payload y))

-- What is published of an object.
abbrev pub body_of : K → Option Field
body_of x = some (stream_of (message_fields x))

module _ (b9 : K → Option Bytes) where
  kept_as-Sublist : (y : K) (o : Option Bytes) → Sublist (payloads (kept_as b9 y o)) (payload y)
  kept_as-Sublist y none = sublist-append_left [] (payload y)
  kept_as-Sublist y (some bytes) = one_or_none-Sublist y (leb max_msg_size (length bytes))

  kept_message-Sublist :
      (s : Session) (m : Header) (x : Option K) (now : Timespec)
      → Sublist (payloads (kept_message b9 s m x now)) (present x)
  kept_message-Sublist s m none now = Sublist.refl []
  kept_message-Sublist s m (some x) now =
      let y = make_message_list m x s.msg_recv now in
      subst (Sublist (payloads (kept b9 y))) (payload-make_message_list m x s.msg_recv now)
        (kept_as-Sublist y (b9 y))

  module _ (d9 : Bytes → K) (clock : ℕ → Timespec) (float_of_uint64 float_of_double : ℕ → ℕ) where
    abbrev pub Runs : Session → Receiver → List K → Type 0
    Runs = Run b9 d9 clock float_of_uint64 float_of_double

    -- What solclient has given as the fields of the messages of a run, oldest first.
    abbrev pub bodies :
        {s0 : Session} {r : Receiver} {told : List K} → Runs s0 r told → List (Option Field)
    bodies begin = []
    bodies (event e last name ts s run result) = bodies run
    bodies (message m rest got a now rc s run result) = bodies run ++ (got ∷ [])
    bodies (looks g q run free e) = bodies run
    bodies (takes g q run under e) = bodies run

    decodes :
        (rest : Field) (got : Option Field) (a : Attachment) (x : K)
        → got ≡ body_of x
        → IsSendable x
        → decode_from_solace float_of_uint64 float_of_double rest got a
          ≡ some (arrived_message float_of_double x)
    unfolding decode_from_solace
    decodes rest got a x same sendable =
        ap (λ got. decode_from_solace float_of_uint64 float_of_double rest got a) same
        ∙ message-Decodes float_of_uint64 float_of_double x a sendable

    pub payloads-Sublist :
        {s0 : Session} {r : Receiver} {told : List K} (run : Runs s0 r told) (xs : List K)
        → bodies run ≡ map body_of xs
        → AllSendable xs
        → Sublist (payloads told) (map (arrived_message float_of_double) xs)
    payloads-Sublist begin xs same all = sublist-append_left [] _
    payloads-Sublist (event {r} {told} e last name ts s run result) xs same all =
        let y = event_list r.session.msg_recv ts (event_text e last name) in
        let arrived = map (arrived_message float_of_double) xs in
        subst (λ l. Sublist l arrived) (sym (payloads-append told (kept b9 y)))
          (subst (Sublist (payloads told ++ payloads (kept b9 y))) (append-nil arrived)
            (Sublist.append (payloads-Sublist run xs same all) (kept_as-Sublist y (b9 y))))
    payloads-Sublist (message {r} {told} m rest got a now rc s run result) xs same all =
        let (ys, y, split, same', last) = map-append_one body_of xs (bodies run) got same in
        let (all', (sendable, rest')) =
          AllSendable-append ys (y ∷ []) (subst AllSendable split all) in
        let decoded = decode_from_solace float_of_uint64 float_of_double rest got a in
        let more = kept_message b9 r.session m decoded now in
        subst (λ l. Sublist l (map (arrived_message float_of_double) xs))
          (sym (payloads-append told more))
          (subst (Sublist (payloads told ++ payloads more))
            (sym (
              ap (map (arrived_message float_of_double)) split
              ∙ map-append (arrived_message float_of_double) ys (y ∷ [])))
            (Sublist.append (payloads-Sublist run ys same' all') (
              subst (λ o. Sublist (payloads more) (present o)) (decodes rest got a y last sendable)
                (kept_message-Sublist r.session m decoded now))))
    payloads-Sublist (looks g q run free e) xs same all = payloads-Sublist run xs same all
    payloads-Sublist (takes g q run under e) xs same all = payloads-Sublist run xs same all
