-- ===== src/Dns/Name/RoundTrip.antt =====
-- A name from `packDomainName` as `unpackDomainName` reads it.
use share.Base.{
  ℕ, ◌+◌, ◌^◌, ◌≤◌, ◌<◌, ◌≡◌, inl, inr, refl, sym, ap, ◌∙◌, Bool, false, List, [], ◌∷◌, ◌++◌, none,
  some, arith, if◌then◌else◌, Bool-cases, get_elem?, length, Bytes, All,
}
use share.Dns.Name.{Packer, pack_domain_name}
use share.Dns.Name.Decode.{IsLabel, calls, weaken-Decodes, calls-weaken}
use share.Dns.Name.Labels.{join}
use share.Dns.Name.Pack.{view, get_elem?-append_some}
use share.Dns.Name.Read.{Reads, unpack_name-Reads}
use share.Dns.Name.Wrote.{AllValid, pack_domain_name-Wrote}

-- Nothing of the packet is still to be filled in.
abbrev pub nothing : ℕ → Bool
nothing x = false

pub view_seen :
    (hidden : ℕ → Bool) (p : Bytes) (y b : ℕ) → view hidden p y ≡ some b → get_elem? p y ≡ some b
view_seen hidden p y b e = elim (Bool-cases (hidden y)) [
  | inl on ↦ absurd (cc (e, ap (λ h. if h then none else get_elem? p y) on))
  | inr off ↦ sym (ap (λ h. if h then none else get_elem? p y) off) ∙ e
]

pub view_visible :
    (hidden : ℕ → Bool) (p : Bytes) (y b : ℕ) → view hidden p y ≡ some b → hidden y ≡ false
view_visible hidden p y b e = elim (Bool-cases (hidden y)) [
  | inl on ↦ absurd (cc (e, ap (λ h. if h then none else get_elem? p y) on))
  | inr off ↦ off
]

-- What `packDomainName` writes under the conditions of `pack_domain_name-Wrote`, with any bytes after
-- it, `unpackDomainName` reads back with enough fuel: the same name, the packet is not changed, and
-- by `rr.off` the reader finds the end of what was written.
pub unpack_name-pack_domain_name :
    (m : Packer) (c : Bool) (l : Bytes) (ls : List Bytes)
    → IsLabel l
    → All IsLabel ls
    → m.off ≡ length m.packet
    → length m.packet + length (join (l ∷ ls)) + 2 < 2 ^ 14
    → AllValid nothing m
    → (m' : Packer) × (n k : ℕ) × (pack_domain_name m (join (l ∷ ls)) c ≡ some (m', n))
      × ((fuel : ℕ) (q : Bytes)
          → k ≤ fuel
          → Reads fuel 0 [] (m'.packet ++ q) (length m.packet) (join (l ∷ ls)) (length m'.packet))
unpack_name-pack_domain_name m c l ls good more at fits valid =
    let (m', w, run, wrote) =
      pack_domain_name-Wrote nothing m c l ls good more at (λ x h. refl) fits valid in
    let seen = λ (q : Bytes) (y b : ℕ) (e : view nothing m'.packet y ≡ some b).
      get_elem?-append_some m'.packet q y b (view_seen nothing m'.packet y b e) in
    let d = λ (q : Bytes).
      weaken-Decodes (view nothing m'.packet) (get_elem? (m'.packet ++ q)) (seen q) wrote.decodes in
    (
      m',
      length w,
      calls wrote.decodes,
      run,
      λ fuel q enough. unpack_name-Reads (m'.packet ++ q) fuel 0 [] (d q) (
          omega (
            arith,
            calls-weaken (view nothing m'.packet) (get_elem? (m'.packet ++ q)) (seen q)
                wrote.decodes,
          )),
    )
