-- ===== src/Websocket/Manager/Users.antt =====
-- Which connections a user has.
use share.Base.{
  ℕ, suc, ◌-◌, ◌+◌, ◌≡◌, ◌≢◌, inl, inr, refl, sym, ap, ◌∙◌, Bool, true, false, ◌&&◌, List, [], ◌∷◌,
  ◌++◌, Option, none, some, arith, ltb, ◌==◌, if◌then◌else◌, Bool-cases, Option-cases,
}
use native.Mathlib.Decide.{ℕ_discrete}
use share.Websocket.Manager.{
  ClientManager, remove_int, put, list_of, none_if_nil, all_conns, conns_of, context, get_frame,
  get_frames, leave, remove, add,
}

-- How often a connection stands in a list.
abbrev pub occurrences : ℕ → List ℕ → ℕ
occurrences c [] = 0
occurrences c (x ∷ xs) = let n = occurrences c xs in if x == c then suc n else n

-- How often it is to stand in the list of a user: once, if its context names that user.
abbrev pub expected : Option ℕ → ℕ → ℕ
expected none uid = 0
expected (some u) uid = if ltb 0 u && u == uid then 1 else 0

-- The lists of the users and the contexts agree.
abbrev pub IsConsistent : ClientManager → Type 0
IsConsistent cls = (uid c : ℕ) → occurrences c (list_of (cls.conns uid)) ≡ expected (cls.ctx c) uid

occurrences-remove_int :
    (c v : ℕ) (l : List ℕ)
    → occurrences c (remove_int l v) ≡ (if v == c then occurrences c l - 1 else occurrences c l)
unfolding remove_int
occurrences-remove_int c v [] = ground arith
occurrences-remove_int c v (x ∷ xs) = elim (Bool-cases (x == v)) [
  | inl here ↦ rw here (ground arith)
  | inr there ↦ rw there (ground (arith, occurrences-remove_int c v xs))
]

occurrences-none_if_nil :
    (c : ℕ) (l : List ℕ) → occurrences c (list_of (none_if_nil l)) ≡ occurrences c l
occurrences-none_if_nil c [] = refl
occurrences-none_if_nil c (x ∷ xs) = refl

occurrences-snoc :
    (c v : ℕ) (l : List ℕ)
    → occurrences c (l ++ (v ∷ [])) ≡ (if v == c then occurrences c l + 1 else occurrences c l)
occurrences-snoc c v [] = ground arith
occurrences-snoc c v (x ∷ xs) = ground (arith, occurrences-snoc c v xs)

put_list :
    (m : ℕ → Option (List ℕ)) (u k : ℕ) (v : Option (List ℕ)) (c : ℕ)
    → occurrences c (list_of (put m u v k))
      ≡ (if k == u then occurrences c (list_of v) else occurrences c (list_of (m k)))
unfolding put
put_list m u k v c = elim (Bool-cases (k == u)) [ inl here ↦ rw here | inr there ↦ rw there ]

either : (b : Bool) (m : ℕ → Option (List ℕ)) (k : ℕ) → (if b then m else m) k ≡ m k
either true m k = refl
either false m k = refl

chosen : (b : Bool) (m n : ℕ → Option (List ℕ)) (k : ℕ) → b ≡ true → (if b then m else n) k ≡ m k
chosen b m n k e = simp e

no_list :
    (cls : ClientManager) (conn u k c : ℕ)
    → cls.conns u ≡ none
    → occurrences c (list_of (cls.conns k))
      ≡ (if ltb 0 u && k == u then 0 else occurrences c (list_of (cls.conns k)))
no_list cls conn u k c e = elim (Bool-cases (ltb 0 u && k == u)) [
  | inl here ↦
      let same : k ≡ u = ground arith in
      ap (λ m. occurrences c (list_of m)) (ap cls.conns same ∙ e) ∙ simp here
  | inr there ↦ simp there
]

leave_user :
    (cls : ClientManager) (conn u k c : ℕ)
    → occurrences c (list_of (leave cls conn (some u) k)) ≡ (
        if ltb 0 u && k == u
        then occurrences c (remove_int (list_of (cls.conns u)) conn)
        else occurrences c (list_of (cls.conns k)))
unfolding leave remove_int
leave_user cls conn u k c = elim (Option-cases (cls.conns u)) [
  | inl e ↦ simp e (
      ap (λ m. occurrences c (list_of m)) (either (ltb 0 u) cls.conns k) ∙ no_list cls conn u k c e)
  | inr (l, e) ↦ elim (Bool-cases (ltb 0 u)) [
    | inr off ↦ simp (off, e)
    | inl on ↦
        simp (on, e)
          (put_list cls.conns u k (none_if_nil (remove_int l conn)) c
            ∙ ap (λ n. if k == u then n else occurrences c (list_of (cls.conns k)))
                (occurrences-none_if_nil c (remove_int l conn)))
  ]
]

expected-put :
    (ctx : ℕ → Option ℕ) (conn c k : ℕ) (o : Option ℕ)
    → expected (put ctx conn o c) k ≡ (if c == conn then expected o k else expected (ctx c) k)
unfolding put
expected-put ctx conn c k o = elim (Bool-cases (c == conn)) [
  | inl here ↦ rw here
  | inr there ↦ rw there
]

-- The list of the user that a connection leaves.
leave_own :
    (cls : ClientManager) (conn k u : ℕ)
    → some u ≡ cls.ctx conn
    → IsConsistent cls
    → occurrences conn (list_of (leave cls conn (some u) k)) ≡ 0
leave_own cls conn k u e ok =
    let at_u : occurrences conn (list_of (cls.conns u)) ≡ expected (some u) u =
      ok u conn ∙ ap (λ o. expected o u) (sym e) in
    let at_k : occurrences conn (list_of (cls.conns k)) ≡ expected (some u) k =
      ok k conn ∙ ap (λ o. expected o k) (sym e) in
    leave_user cls conn u k conn
    ∙ ground (arith, occurrences-remove_int conn conn (list_of (cls.conns u)))

leave_other :
    (cls : ClientManager) (conn k c u : ℕ)
    → c ≢ conn
    → occurrences c (list_of (leave cls conn (some u) k)) ≡ occurrences c (list_of (cls.conns k))
leave_other cls conn k c u ne = elim (Bool-cases (ltb 0 u && k == u)) [
  | inl here ↦
      let same : k ≡ u = ground arith in
      leave_user cls conn u k c
      ∙ simp here (
          occurrences-remove_int c conn (list_of (cls.conns u))
          ∙ ground arith
          ∙ ap (λ j. occurrences c (list_of (cls.conns j))) (sym same))
  | inr there ↦ leave_user cls conn u k c ∙ simp there
]

leave_any :
    (cls : ClientManager) (conn k c : ℕ) (o : Option ℕ)
    → o ≡ cls.ctx conn
    → IsConsistent cls
    → occurrences c (list_of (leave cls conn o k))
      ≡ (if c == conn then 0 else expected (cls.ctx c) k)
unfolding leave
leave_any cls conn k c none e ok = elim (ℕ_discrete c conn) [
  | yes same ↦
      let out : expected (cls.ctx c) k ≡ 0 = ap (λ o. expected o k) (ap cls.ctx same ∙ sym e) in
      ok k c ∙ ground arith
  | no other ↦ ok k c ∙ ground arith
]
leave_any cls conn k c (some u) e ok = elim (ℕ_discrete c conn) [
  | yes same ↦
      ap (λ d. occurrences d (list_of (leave cls conn (some u) k))) same
      ∙ leave_own cls conn k u e ok
      ∙ ground arith
  | no other ↦ leave_other cls conn k c u other ∙ ok k c ∙ ground arith
]

-- What stands for each connection after `conn` is removed.
pub record IsWithout (cls : ClientManager) (conn : ℕ) (after : ClientManager) : Type 0 where
  pub consistent : IsConsistent after
  pub users :
      (uid c : ℕ)
      → occurrences c (conns_of after uid)
        ≡ (if c == conn then 0 else occurrences c (conns_of cls uid))
  pub contexts : (c : ℕ) → context after c ≡ (if c == conn then none else context cls c)
  pub chopped : (c : ℕ) → get_frame after c ≡ (if c == conn then none else get_frame cls c)
  pub fragments : (c : ℕ) → get_frames after c ≡ (if c == conn then none else get_frames cls c)
  pub everyone :
      (c : ℕ)
      → occurrences c (all_conns after)
        ≡ (if conn == c then occurrences c (all_conns cls) - 1 else occurrences c (all_conns cls))

-- `remove` keeps the lists of the users and the contexts in agreement: a connection stands once in
-- the list of the user that its context names, and in no other. The connection that is removed stands
-- in no user's list, and has no context, no chopped frame and no fragments; it stands once less in the
-- list of all connections, if it stood there. Every other connection stands in each of the lists as
-- often as before, and its context, chopped frame and fragments are as before.
pub remove-IsConsistent :
    (cls : ClientManager) (conn : ℕ) → IsConsistent cls → IsWithout cls conn (remove cls conn)
unfolding remove put conns_of context get_frame get_frames all_conns
remove-IsConsistent cls conn ok = record {
  consistent = λ uid c.
      leave_any cls conn uid c (cls.ctx conn) refl ok ∙ sym (expected-put cls.ctx conn c uid none);
  users = λ uid c.
      leave_any cls conn uid c (cls.ctx conn) refl ok
      ∙ ap (λ (n : ℕ). if c == conn then 0 else n) (sym (ok uid c));
  contexts = λ c. refl;
  chopped = λ c. refl;
  fragments = λ c. refl;
  everyone = λ c. occurrences-remove_int c conn cls.all;
}

joined_user :
    (c : ClientManager) (uid conn k d : ℕ)
    → ltb 0 uid ≡ true
    → IsConsistent c
    → ((j : ℕ) → occurrences conn (list_of (c.conns j)) ≡ 0)
    → (if k == uid
        then occurrences d (list_of (c.conns uid) ++ (conn ∷ []))
        else occurrences d (list_of (c.conns k)))
      ≡ (if d == conn then expected (some uid) k else expected (c.ctx d) k)
joined_user c uid conn k d on ok gone =
    let more = occurrences-snoc d conn (list_of (c.conns uid)) in
    elim (ℕ_discrete d conn) [
      | yes same ↦
          let at_uid : occurrences d (list_of (c.conns uid)) ≡ 0 =
            ap (λ e. occurrences e (list_of (c.conns uid))) same ∙ gone uid in
          let at_k : occurrences d (list_of (c.conns k)) ≡ 0 =
            ap (λ e. occurrences e (list_of (c.conns k))) same ∙ gone k in
          ground (arith, more)
      | no other ↦ elim (ℕ_discrete k uid) [
        | yes e ↦
            let at_k : occurrences d (list_of (c.conns uid)) ≡ expected (c.ctx d) k =
              ap (λ j. occurrences d (list_of (c.conns j))) (sym e) ∙ ok k d in
            ground (arith, more)
        | no ne ↦ let at_k = ok k d in ground arith
      ]
    ]

joined :
    (c : ClientManager) (uid conn k d : ℕ)
    → IsConsistent c
    → ((j : ℕ) → occurrences conn (list_of (c.conns j)) ≡ 0)
    → occurrences d (
        list_of (
          (if ltb 0 uid
              then put c.conns uid (some (list_of (c.conns uid) ++ (conn ∷ [])))
              else c.conns)
            k))
      ≡ (if d == conn then expected (some uid) k else expected (c.ctx d) k)
joined c uid conn k d ok gone = elim (Bool-cases (ltb 0 uid)) [
  | inr off ↦ elim (ℕ_discrete d conn) [
    | yes same ↦
        simp off (ap (λ e. occurrences e (list_of (c.conns k))) same ∙ gone k ∙ ground arith)
    | no other ↦ simp off (ok k d ∙ ground arith)
  ]
  | inl on ↦
      let longer = put c.conns uid (some (list_of (c.conns uid) ++ (conn ∷ []))) in
      ap (λ o. occurrences d (list_of o)) (chosen (ltb 0 uid) longer c.conns k on)
      ∙ put_list c.conns uid k (some (list_of (c.conns uid) ++ (conn ∷ []))) d
      ∙ joined_user c uid conn k d on ok gone
]

-- After `add` the connection stands once in the list of its user, and in no other user's, also
-- where it was another's before; a user of 0 is no user.
pub add-IsConsistent :
    (cls : ClientManager) (uid conn : ℕ)
    → IsConsistent cls
    → IsConsistent (add cls uid conn)
      × ((k : ℕ) → occurrences conn (conns_of (add cls uid conn) k) ≡ expected (some uid) k)
unfolding add conns_of
add-IsConsistent cls uid conn ok =
    let kept = (remove-IsConsistent cls conn ok).consistent in
    let gone : (k : ℕ) → occurrences conn (conns_of (remove cls conn) k) ≡ 0 =
      λ k. (remove-IsConsistent cls conn ok).users k conn ∙ ground arith in
    (
      λ k d.
          joined (remove cls conn) uid conn k d kept gone
          ∙ sym (expected-put (remove cls conn).ctx conn d k (some uid)),
      λ k. joined (remove cls conn) uid conn k conn kept gone ∙ ground arith,
    )
