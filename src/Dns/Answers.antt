-- ===== src/Dns/Answers.antt =====
-- The answers that the cache keeps for one name: lib/dns/answers.go, and lib/dns/answer.go but its
-- place in the list of the cache.
pub mod Laws
use share.Base.{
  ◌>>=◌, ℕ, zero, suc, ◌-◌, Bool, true, false, ◌&&◌, List, [], ◌∷◌, ◌++◌, Option, none, some, ltb,
  ◌==◌, if◌then◌else◌, get_elem?, set, length, take, u32, Bytes,
}
use share.Dns.Message.{Message}
use share.Dns.Message.Flags.{sub_ttl}

-- Times are seconds; 0 is that of a local answer.
pub record Answer : Type 0 where
  pub received_at : ℕ
  pub accessed_at : ℕ
  pub qname : Bytes
  pub qtype : ℕ
  pub qclass : ℕ
  pub msg : Option Message

-- `now` is what the clock tells.
unfoldable pub new_answer : ℕ → Message → Bool → Answer
new_answer now msg is_local = record {
  received_at = if is_local then 0 else now;
  accessed_at = if is_local then 0 else now;
  qname = msg.question.name;
  qtype = msg.question.qtype;
  qclass = msg.question.qclass;
  msg = some msg;
}

unfoldable pub clear : Answer → Answer
clear an = record an { msg = none }

-- The answer after `update` with an answer that has a message.
unfoldable pub updated : Answer → Answer → Answer
updated an nu =
    if ltb 0 an.received_at
    then record an { received_at = nu.received_at; accessed_at = nu.accessed_at; msg = nu.msg }
    else record an { msg = nu.msg }

-- `update` changes the new answer too, which gives its message away.
unfoldable pub update : Answer → Answer → Answer × Answer
update an nu = update_by nu.msg
  where
    update_by : Option Message → Answer × Answer
    update_by none = (an, nu)
    update_by (some msg) = (updated an nu, record nu { msg = none })

-- `none` is a panic: an answer without a message, or an offset out of range.
unfoldable pub update_ttl : ℕ → Answer → Option Answer
update_ttl now an =
    let older = (do
      msg ← an.msg
      msg1 ← sub_ttl msg (u32 (now - an.received_at))
      some (record an { accessed_at = now; msg = some msg1 })) in
    if an.received_at == 0 then some an else older

-- `answer.get`: the packet, after the times are brought up to date.
unfoldable pub answer_packet : ℕ → Answer → Option (Answer × Bytes)
answer_packet now an = do an1 ← update_ttl now an; msg ← an1.msg; some (an1, msg.packet)

abbrev pub same_key : ℕ → ℕ → Answer → Bool
same_key qtype qclass an = an.qtype == qtype && an.qclass == qclass

-- `answers.get`: the first answer of the type and class, with its index.
unfoldable pub find : List Answer → ℕ → ℕ → Option (Answer × ℕ)
find [] qtype qclass = none
find (an ∷ v) qtype qclass =
    let rest = (do (found, x) ← find v qtype qclass; some (found, suc x)) in
    if same_key qtype qclass an then some (an, 0) else rest

-- The last answer goes to the place of the one that is removed.
abbrev pub remove_at : List Answer → Option (Answer × ℕ) → List Answer
remove_at v none = v
remove_at v (some (an, x)) = move_last v x (get_elem? v (length v - 1))
  where
    move_last : List Answer → ℕ → Option Answer → List Answer
    move_last v x none = v
    move_last v x (some last) = take (length v - 1) (set v x last)

unfoldable pub remove : List Answer → ℕ → ℕ → List Answer
remove v qtype qclass = remove_at v (find v qtype qclass)

-- The answers, the answer that was updated, and the new answer, which may have lost its message.
abbrev pub Upserted : Type 0
Upserted = List Answer × Option Answer × Answer

abbrev pub update_at : List Answer → Answer → Option (Answer × ℕ) → Upserted
update_at v nu none = (v ++ (nu ∷ []), none, nu)
update_at v nu (some (an, x)) = (set v x (update an nu).0, some (update an nu).0, (update an nu).1)

unfoldable pub upsert : List Answer → Answer → Upserted
upsert v nu = upsert_by nu.msg
  where
    upsert_by : Option Message → Upserted
    upsert_by none = (v, none, nu)
    upsert_by (some msg) = update_at v nu (find v nu.qtype nu.qclass)
