-- ===== src/Dns/Answers/Laws.antt =====
-- What is found after `upsert`.
use share.Base.{
  ◌>>=◌, ℕ, suc, ◌≡◌, ◌⊎◌, inl, inr, refl, sym, ap, ◌∙◌, true, false, ◌&&◌, List, [], ◌∷◌, ◌++◌,
  Option, none, some, arith, ltb, ◌==◌, Bool-cases, Option-cases, set, subst,
}
use share.Dns.Message.{Message}
use share.Dns.Answers.{Answer, update, updated, same_key, find, update_at, upsert}

abbrev later : Option (Answer × ℕ) → Option (Answer × ℕ)
later none = none
later (some (an, x)) = some (an, suc x)

find_nil : (t c : ℕ) → find [] t c ≡ none
unfolding find
find_nil t c = refl

module _ (a : Answer) (v : List Answer) (t c : ℕ) where
  find_hit : same_key t c a ≡ true → find (a ∷ v) t c ≡ some (a, 0)
  unfolding find
  find_hit e = rw e

  find_skip : same_key t c a ≡ false → find (a ∷ v) t c ≡ later (find v t c)
  unfolding find
  find_skip e = rw e (same_next (find v t c))
    where
      same_next : (o : Option (Answer × ℕ)) → (do (found, x) ← o; some (found, suc x)) ≡ later o
      same_next none = refl
      same_next (some (found, x)) = refl

later-back :
    (o : Option (Answer × ℕ)) (an : Answer) (x : ℕ)
    → later o ≡ some (an, x)
    → (y : ℕ) × (o ≡ some (an, y)) × (x ≡ suc y)
later-back none an x e = absurd (cc e)
later-back (some (b, y)) an x e =
    let same : b ≡ an = cc e in let at : suc y ≡ x = cc e in (y, ap (λ d. some (d, y)) same, sym at)

found_key :
    (v : List Answer) (t c : ℕ) (an : Answer) (x : ℕ)
    → find v t c ≡ some (an, x)
    → same_key t c an ≡ true
found_key [] t c an x e = absurd (cc (find_nil t c, e))
found_key (a ∷ v) t c an x e = elim (Bool-cases (same_key t c a)) [
  | inl hit ↦
      let same : a ≡ an = cc (sym (find_hit a v t c hit) ∙ e) in ap (same_key t c) (sym same) ∙ hit
  | inr skip ↦
      let (y, f, at) = later-back (find v t c) an x (sym (find_skip a v t c skip) ∙ e) in
      found_key v t c an y f
]

find-set :
    (v : List Answer) (t c : ℕ) (an an2 : Answer) (x : ℕ)
    → find v t c ≡ some (an, x)
    → same_key t c an2 ≡ true
    → find (set v x an2) t c ≡ some (an2, x)
find-set [] t c an an2 x e k = absurd (cc (find_nil t c, e))
find-set (a ∷ v) t c an an2 x e k = elim (Bool-cases (same_key t c a)) [
  | inl hit ↦
      let first : 0 ≡ x = cc (sym (find_hit a v t c hit) ∙ e) in
      rw (sym first) (find_hit an2 v t c k)
  | inr skip ↦
      let (y, f, at) = later-back (find v t c) an x (sym (find_skip a v t c skip) ∙ e) in
      rw at (find_skip a (set v y an2) t c skip ∙ ap later (find-set v t c an an2 y f k))
]

find-set_other :
    (v : List Answer) (t c t2 c2 : ℕ) (an an2 : Answer) (x : ℕ)
    → find v t c ≡ some (an, x)
    → same_key t2 c2 an ≡ false
    → same_key t2 c2 an2 ≡ false
    → find (set v x an2) t2 c2 ≡ find v t2 c2
find-set_other [] t c t2 c2 an an2 x e k k2 = absurd (cc (find_nil t c, e))
find-set_other (a ∷ v) t c t2 c2 an an2 x e k k2 = elim (Bool-cases (same_key t c a)) [
  | inl hit ↦
      let same : a ≡ an = cc (sym (find_hit a v t c hit) ∙ e) in
      let first : 0 ≡ x = cc (sym (find_hit a v t c hit) ∙ e) in
      rw (sym first)
        (find_skip an2 v t2 c2 k2 ∙ sym (find_skip a v t2 c2 (ap (same_key t2 c2) same ∙ k)))
  | inr skip ↦
      let (y, f, at) = later-back (find v t c) an x (sym (find_skip a v t c skip) ∙ e) in
      let rest = find-set_other v t c t2 c2 an an2 y f k k2 in
      rw at (elim (Bool-cases (same_key t2 c2 a)) [
        | inl on ↦ find_hit a (set v y an2) t2 c2 on ∙ sym (find_hit a v t2 c2 on)
        | inr off ↦
            find_skip a (set v y an2) t2 c2 off ∙ ap later rest ∙ sym (find_skip a v t2 c2 off)
      ])
]

find-append :
    (v : List Answer) (t c : ℕ) (nu : Answer)
    → find v t c ≡ none
    → same_key t c nu ≡ true
    → (x : ℕ) × (find (v ++ (nu ∷ [])) t c ≡ some (nu, x))
find-append [] t c nu e k = (0, find_hit nu [] t c k)
find-append (a ∷ v) t c nu e k = elim (Bool-cases (same_key t c a)) [
  | inl hit ↦ absurd (cc (sym (find_hit a v t c hit) ∙ e))
  | inr skip ↦
      let (x, f) =
        find-append v t c nu (later_none (find v t c) (sym (find_skip a v t c skip) ∙ e)) k in
      (suc x, find_skip a (v ++ (nu ∷ [])) t c skip ∙ ap later f)
]
  where
    later_none : (o : Option (Answer × ℕ)) → later o ≡ none → o ≡ none
    later_none none e = refl
    later_none (some p) e = absurd (cc e)

find-append_other :
    (v : List Answer) (t c : ℕ) (nu : Answer)
    → same_key t c nu ≡ false
    → find (v ++ (nu ∷ [])) t c ≡ find v t c
find-append_other [] t c nu k = find_skip nu [] t c k ∙ unfold find in refl
find-append_other (a ∷ v) t c nu k = elim (Bool-cases (same_key t c a)) [
  | inl hit ↦ find_hit a (v ++ (nu ∷ [])) t c hit ∙ sym (find_hit a v t c hit)
  | inr skip ↦
      find_skip a (v ++ (nu ∷ [])) t c skip
      ∙ ap later (find-append_other v t c nu k)
      ∙ sym (find_skip a v t c skip)
]

update_kept :
    (an nu : Answer)
    → ((updated an nu).msg ≡ nu.msg)
      × ((updated an nu).qtype ≡ an.qtype)
      × ((updated an nu).qclass ≡ an.qclass)
unfolding updated
update_kept an nu = elim (Bool-cases (ltb 0 an.received_at)) [
  | inl on ↦ rw on (refl, refl, refl)
  | inr off ↦ rw off (refl, refl, refl)
]

update_run :
    (an nu : Answer) (msg : Message)
    → nu.msg ≡ some msg
    → update an nu ≡ (updated an nu, record nu { msg = none })
unfolding update
update_run an nu msg e = rw e

-- What `upsert` does with an answer that has a message.
upsert_run :
    (v : List Answer) (nu : Answer) (msg : Message)
    → nu.msg ≡ some msg
    → upsert v nu ≡ update_at v nu (find v nu.qtype nu.qclass)
unfolding upsert
upsert_run v nu msg e = rw e

own_key : (an : Answer) → same_key an.qtype an.qclass an ≡ true
own_key an = ground arith

same_key-other :
    (t c t2 c2 : ℕ) (an : Answer)
    → same_key t c an ≡ true
    → (t == t2 && c == c2) ≡ false
    → same_key t2 c2 an ≡ false
same_key-other t c t2 c2 an e k = ground arith

-- After an answer with a message is put to a list of answers, the answer found for its type and class
-- has the new message, whether one was there before or not, and what is found for any other type and
-- class is as before.
pub find-upsert :
    (v : List Answer) (nu : Answer) (msg : Message)
    → nu.msg ≡ some msg
    → ((an : Answer) × (x : ℕ) × (find (upsert v nu).0 nu.qtype nu.qclass ≡ some (an, x))
        × (an.msg ≡ some msg))
      × ((t c : ℕ)
          → (nu.qtype == t && nu.qclass == c) ≡ false
          → find (upsert v nu).0 t c ≡ find v t c)
find-upsert v nu msg e = by_find (Option-cases (find v nu.qtype nu.qclass))
  where
    Goal : List Answer → Type 0
    Goal v2 =
        ((an : Answer) × (x : ℕ) × (find v2 nu.qtype nu.qclass ≡ some (an, x))
          × (an.msg ≡ some msg))
        × ((t c : ℕ) → (nu.qtype == t && nu.qclass == c) ≡ false → find v2 t c ≡ find v t c)

    by_find :
        (find v nu.qtype nu.qclass ≡ none)
          ⊎ ((p : Answer × ℕ) × (find v nu.qtype nu.qclass ≡ some p))
        → Goal (upsert v nu).0
    by_find (inl f) =
        let (x, g) = find-append v nu.qtype nu.qclass nu f (own_key nu) in
        subst (λ r. Goal r.0) (sym (upsert_run v nu msg e ∙ ap (update_at v nu) f))
          (
            (nu, x, g, e),
            λ t c k.
                find-append_other v t c nu
                  (same_key-other nu.qtype nu.qclass t c nu (own_key nu) k),
          )
    by_find (inr ((an, x), f)) =
        let (new_msg, kept_type, kept_class) = update_kept an nu in
        let found = found_key v nu.qtype nu.qclass an x f in
        let again : same_key nu.qtype nu.qclass (updated an nu) ≡ true =
          rw (kept_type, kept_class) found in
        let given : update_at v nu (some (an, x))
            ≡ (set v x (updated an nu), some (updated an nu), record nu { msg = none }) =
          ap (λ (r : Answer × Answer). (set v x r.0, some r.0, r.1)) (update_run an nu msg e) in
        subst (λ r. Goal r.0) (sym (upsert_run v nu msg e ∙ ap (update_at v nu) f ∙ given))
          (
            (
              updated an nu,
              x,
              find-set v nu.qtype nu.qclass an (updated an nu) x f again,
              new_msg ∙ e,
            ),
            λ t c k.
                find-set_other v nu.qtype nu.qclass t c an (updated an nu) x f
                  (same_key-other nu.qtype nu.qclass t c an found k)
                  (same_key-other nu.qtype nu.qclass t c (updated an nu) again k),
          )
