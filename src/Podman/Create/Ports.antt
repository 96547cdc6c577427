-- ===== src/Podman/Create/Ports.antt =====
-- The ports of a container from its parameters to the request.
use mathlib.Core.Path.{subst}
use easytidy.Prelude.{
  ℕ, ◌==◌, ◌<◌, ◌^◌, Bool, true, false, ◌&&◌, Option, none, some, List, [], ◌∷◌, ◌++◌, map, ◌≡◌,
  refl, sym, ap, ◌∙◌, arith, if◌then◌else◌, Bool-cases, inl, inr, eq-of-==,
}
use easytidy.Lists.{All, find}
use easytidy.Text.{Text, text_eq, decimal}
use easytidy.Text.Order.{text_lt}
use easytidy.Text.Split.{text_eq_iff, split_once-Free}
use easytidy.Text.Decimal.{parse_u32-decimal, decimal-Free}
use easytidy.Config.{PortMapping, mapped, IsPort}
use easytidy.Podman.Body.{
  PortBinding, PodmanPort, insert, or_else, unwrap_or, port_key, port_of, portmappings,
}
use easytidy.Podman.Create.{
  ok, Bindings, protocol_of, binding_key, binding, bind_ports, bind_network,
}
use easytidy.Podman.Create.Accepted.{IsPortPair}

abbrev key_from : ℕ × Text → Text
key_from q = decimal q.0 ++ (b'/' ∷ q.1)

port_key-from : (n : ℕ) (proto : Text) → n < 2 ^ 16 → port_key (key_from (n, proto)) ≡ (n, proto)
unfolding port_key
port_key-from n proto h =
    rw
      (
        split_once-Free b'/' (decimal n) proto
            (decimal-Free b'/' n (inl (ground arith)) (ground arith)),
        parse_u32-decimal n (ground arith),
      )
      (ground (arith, h))

abbrev IsKey : Text → Type 0
IsKey key = key_from (port_key key) ≡ key

-- The port of the request for one of the parameters.
abbrev pub published : PortMapping → PodmanPort
published p = record {
  host_ip = [];
  host_port = p.host_port;
  container_port = p.container_port;
  protocol = protocol_of p;
}

module _ (c : ℕ) (pr : Text) where
  abbrev asked : ℕ × Text → Bool
  asked q = q.0 == c && text_eq q.1 pr

  abbrev pub for : PodmanPort → Bool
  for x = asked (x.container_port, x.protocol)

  -- The last of the ports with the number and the protocol in the container.
  abbrev pub last_port : List PortMapping → Option PodmanPort
  last_port [] = none
  last_port (p ∷ ps) =
      or_else (last_port ps) (if for (published p) then some (published p) else none)

  asked-key : (q : ℕ × Text) → asked q ≡ true → key_from q ≡ key_from (c, pr)
  asked-key q h =
      let number : q.0 ≡ c = eq-of-== q.0 c (ground (arith, h)) in
      let proto : q.1 ≡ pr = (text_eq_iff q.1 pr).0 (ground (arith, h)) in rw (number, proto) refl

  none-asked :
      (key : Text) (bs : List PortBinding) (rest : List PodmanPort)
      → asked (port_key key) ≡ false
      → find for (map (port_of key) bs ++ rest) ≡ find for rest
  unfolding find
  none-asked key [] rest h = refl
  none-asked key (b ∷ bs) rest h = rw h (none-asked key bs rest h)

  same-rest :
      (xs ys zs : List PodmanPort)
      → find for ys ≡ find for zs
      → find for (xs ++ ys) ≡ find for (xs ++ zs)
  unfolding find
  same-rest [] ys zs h = h
  same-rest (x ∷ xs) ys zs h = elim (Bool-cases (for x)) [
    | inl e ↦ rw e refl
    | inr e ↦ rw e (same-rest xs ys zs h)
  ]

  -- Two keys that both are asked for are one.
  asked_both :
      (k j : Text)
      → IsKey k
      → IsKey j
      → asked (port_key k) ≡ true
      → text_eq k j ≡ false
      → asked (port_key j) ≡ false
  asked_both k j hk hj a n = elim (Bool-cases (asked (port_key j))) [
    | inr e ↦ e
    | inl e ↦
        let same : k ≡ j =
          sym hk ∙ asked-key (port_key k) a ∙ sym (asked-key (port_key j) e) ∙ hj in
        let equal : text_eq k j ≡ true = (text_eq_iff k j).1 same in ground (arith, n, equal)
  ]

  find-insert :
      (k : Text) (b : PortBinding) (m : Bindings)
      → IsKey k
      → All (λ e. IsKey e.0) m
      → find for (portmappings (insert k (b ∷ []) m))
        ≡ (if asked (port_key k) then some (port_of k b) else find for (portmappings m))
  unfolding find portmappings insert
  find-insert k b [] hk h = elim (Bool-cases (asked (port_key k))) [
    | inl e ↦ rw e refl
    | inr e ↦ rw e refl
  ]
  find-insert k b ((j, w) ∷ m) hk h = elim (Bool-cases (text_eq k j)) [
    | inl q ↦ rw q (elim (Bool-cases (asked (port_key k))) [
      | inl e ↦ rw e refl
      | inr e ↦ rw e (
          sym (
            none-asked j w (portmappings m)
              (subst (λ t. asked (port_key t) ≡ false) ((text_eq_iff k j).0 q) e)))
    ])
    | inr q ↦ elim (Bool-cases (text_lt k j)) [
      | inl l ↦
          rw (q, l)
            (elim (Bool-cases (asked (port_key k))) [ inl e ↦ rw e refl | inr e ↦ rw e refl ])
      | inr l ↦
          rw (q, l)
            (elim (Bool-cases (asked (port_key k))) [
              | inl e ↦ rw e (
                  none-asked j w _ (asked_both k j hk h.0 e q) ∙ rw e at (find-insert k b m hk h.1))
              | inr e ↦
                  rw e (same-rest (map (port_of j) w) _ _ (rw e at (find-insert k b m hk h.1)))
            ])
    ]
  ]

IsKey-insert :
    (k : Text) (v : List PortBinding) (m : Bindings)
    → IsKey k
    → All (λ e. IsKey e.0) m
    → All (λ e. IsKey e.0) (insert k v m)
unfolding insert
IsKey-insert k v [] hk h = (hk, tt)
IsKey-insert k v ((j, w) ∷ m) hk h = elim (Bool-cases (text_eq k j)) [
  | inl q ↦ rw q (hk, h.1)
  | inr q ↦ elim (Bool-cases (text_lt k j)) [
    | inl l ↦ rw (q, l) (hk, h)
    | inr l ↦ rw (q, l) (h.0, IsKey-insert k v m hk h.1)
  ]
]

-- What the key of a port is read back as.
key-of : (p : PortMapping) → IsPort p → port_key (binding_key p) ≡ (p.container_port, protocol_of p)
unfolding binding_key
key-of p h = port_key-from p.container_port (protocol_of p) h.1

binding-IsKey : (p : PortMapping) → IsPort p → IsKey (binding_key p)
unfolding binding_key
binding-IsKey p h = ap key_from (key-of p h)

port-of :
    (p : PortMapping)
    → IsPort p
    → port_of (binding_key p) (record { host_ip = []; host_port = decimal p.host_port })
      ≡ published p
unfolding binding_key
port-of p h = rw (key-of p h, parse_u32-decimal p.host_port (ground arith)) refl

find-next :
    (c : ℕ) (pr : Text) (p : PortMapping) (m : Bindings)
    → IsPort p
    → All (λ e. IsKey e.0) m
    → find (for c pr) (portmappings (insert (binding_key p) (binding p) m))
      ≡ (if for c pr (published p) then some (published p) else find (for c pr) (portmappings m))
find-next c pr p m h k =
    find-insert c pr (binding_key p) _ m (binding-IsKey p h) k ∙ rw (port-of p h, key-of p h) refl

or_else_step :
    (a : Option PodmanPort) (b : Bool) (x : PodmanPort) (y : Option PodmanPort)
    → or_else a (if b then some x else y) ≡ or_else (or_else a (if b then some x else none)) y
or_else_step (some p) b x y = refl
or_else_step none true x y = refl
or_else_step none false x y = refl

bind_ports-last :
    (c : ℕ) (pr : Text) (m : Bindings) (ps : List PortMapping)
    → All IsPort ps
    → All IsPortPair ps
    → All (λ e. IsKey e.0) m
    → (n : Bindings) × (bind_ports m ps ≡ ok n)
      × (find (for c pr) (portmappings n)
          ≡ or_else (last_port c pr ps) (find (for c pr) (portmappings m)))
unfolding bind_ports
bind_ports-last c pr m [] h z k = (m, refl, refl)
bind_ports-last c pr m (p ∷ ps) h z k =
    let next : Bindings = insert (binding_key p) (binding p) m in
    let rest : (n : Bindings) × (bind_ports next ps ≡ ok n)
        × (find (for c pr) (portmappings n)
            ≡ or_else (last_port c pr ps) (find (for c pr) (portmappings next))) =
      bind_ports-last c pr next ps h.1 z.1
        (IsKey-insert (binding_key p) (binding p) m (binding-IsKey p h.0) k) in
    (
      rest.0,
      rw z.0 rest.1,
      rest.2
          ∙ (ap (λ o. or_else (last_port c pr ps) o) (find-next c pr p m h.0 k)
              ∙ or_else_step (last_port c pr ps) (for c pr (published p)) (published p)
                  (find (for c pr) (portmappings m))),
    )

or_else-none : (a : Option PodmanPort) → or_else a none ≡ a
or_else-none (some p) = refl
or_else-none none = refl

-- On a network of its own, ports with two numbers that are not zero are accepted; for each number
-- and protocol in the container the request publishes the port of the host that the last of the
-- mappings with them has, over the empty protocol's tcp, and none if there is no such mapping.
pub bind_network-last :
    (ports : List PortMapping) (c : ℕ) (pr : Text)
    → All IsPort ports
    → All IsPortPair ports
    → (n : Option Text × Option Bindings) × (bind_network mapped ports ≡ ok n)
      × (find (for c pr) (portmappings (unwrap_or [] n.1)) ≡ last_port c pr ports)
unfolding bind_network portmappings find
bind_network-last [] c pr h z = ((none, none), refl, refl)
bind_network-last (p ∷ ps) c pr h z =
    let rest = bind_ports-last c pr [] (p ∷ ps) h z tt in
    ((none, some rest.0), rw rest.1 refl, rest.2 ∙ or_else-none (last_port c pr (p ∷ ps)))
