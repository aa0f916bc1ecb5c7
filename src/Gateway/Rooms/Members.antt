-- ===== src/Gateway/Rooms/Members.antt =====
-- Who is in a room of services/gateway-cpp/main.cpp after clients have joined, left and disconnected.
use gmaker.Common.{
  ℕ, ◌≡◌, refl, sym, ap, ap₂, ◌∙◌, subst, ◌≢◌, inl, inr, true, false, ◌&&◌, ◌||◌, Option, none,
  some, List, [], ◌∷◌, arith, ◌==◌, if◌then◌else◌, ==→eq, ==_self, ne→==, Bool-cases, Option-cases,
  if_elim, length,
}
use gmaker.Common.Dict.{
  Dict, find, put, erase, insert, remove, member, find-put, find-erase, member-insert,
  member-remove,
}
use gmaker.Gateway.Rooms.{Rooms, members_of, join_room, remove_member, leave_room, close_client}

abbrev pub members : Option (List ℕ) → List ℕ
members none = []
members (some s) = s

members_of_lem : (g : Rooms) (r : ℕ) → members_of g r ≡ members (find g.room_members r)
unfolding members_of
members_of_lem g r = of_option (find g.room_members r)
  where
    of_option :
        (o : Option (List ℕ)) → (elim o as (λ _. List ℕ) [ none ↦ [] | some s ↦ s ]) ≡ members o
    of_option none = refl
    of_option (some s) = refl

member_nil : (s : List ℕ) (d : ℕ) → length s ≡ 0 → member s d ≡ false
unfolding member
member_nil [] d h = refl
member_nil (x ∷ s) d h = absurd (omega arith)

remove_member-none :
    (m : Dict (List ℕ)) (room conn : ℕ) → find m room ≡ none → remove_member m room conn ≡ m
unfolding remove_member
remove_member-none m room conn e = rw (e, remove_member) refl

remove_member-some :
    (m : Dict (List ℕ)) (room conn : ℕ) (s : List ℕ)
    → find m room ≡ some s
    → remove_member m room conn
      ≡ (if length (remove s conn) == 0 then erase m room else put m room (remove s conn))
unfolding remove_member
remove_member-some m room conn s e = rw (e, remove_member) refl

absent :
    (m : Dict (List ℕ)) (room conn r d : ℕ)
    → find m room ≡ none
    → member (members (find m r)) d
      ≡ (if room == r && conn == d then false else member (members (find m r)) d)
unfolding member
absent m room conn r d e = elim (Bool-cases (room == r)) [
  | inr other ↦ rw other refl
  | inl same ↦
      let here : find m r ≡ none = ap (find m) (sym (==→eq room r same)) ∙ e in
      rw (here, same) (elim (Bool-cases (conn == d)) [ inl a ↦ rw a refl | inr a ↦ rw a refl ])
]

emptied :
    (m : Dict (List ℕ)) (room conn r d : ℕ) (s : List ℕ)
    → find m room ≡ some s
    → length (remove s conn) ≡ 0
    → member (members (find (erase m room) r)) d
      ≡ (if room == r && conn == d then false else member (members (find m r)) d)
unfolding member
emptied m room conn r d s e z = rw (find-erase m room r) (elim (Bool-cases (room == r)) [
  | inr other ↦ rw other refl
  | inl same ↦
      let here : find m r ≡ some s = ap (find m) (sym (==→eq room r same)) ∙ e in
      let gone : (if conn == d then false else member s d) ≡ false =
        sym (member-remove s conn d) ∙ member_nil (remove s conn) d z in
      rw (here, same) (sym gone)
])

kept :
    (m : Dict (List ℕ)) (room conn r d : ℕ) (s : List ℕ)
    → find m room ≡ some s
    → member (members (find (put m room (remove s conn)) r)) d
      ≡ (if room == r && conn == d then false else member (members (find m r)) d)
kept m room conn r d s e = rw (find-put m room (remove s conn) r) (elim (Bool-cases (room == r)) [
  | inr other ↦ rw other refl
  | inl same ↦
      let here : find m r ≡ some s = ap (find m) (sym (==→eq room r same)) ∙ e in
      rw (here, same) (member-remove s conn d)
])

-- Removing takes the client out of that room and changes no other.
remove_member_lem :
    (m : Dict (List ℕ)) (room conn r d : ℕ)
    → member (members (find (remove_member m room conn) r)) d
      ≡ (if room == r && conn == d then false else member (members (find m r)) d)
remove_member_lem m room conn r d = elim (Option-cases (find m room)) [
  | inl e ↦ rw (remove_member-none m room conn e) (absent m room conn r d e)
  | inr (s, e) ↦ rw (remove_member-some m room conn s e) (
      if_elim
        (λ (x : Dict (List ℕ)).
          member (members (find x r)) d
          ≡ (if room == r && conn == d then false else member (members (find m r)) d))
        (length (remove s conn) == 0) (λ z. emptied m room conn r d s e (==→eq _ _ z))
        λ _. kept m room conn r d s e)
]

-- Joining puts the client into that room and changes no other.
join_room_lem :
    (g : Rooms) (room conn r d : ℕ)
    → member (members_of (join_room g room conn) r) d
      ≡ (room == r && conn == d || member (members_of g r) d)
unfolding join_room
join_room_lem g room conn r d =
    let s = insert (members_of g room) conn in
    ap (λ x. member x d) (members_of_lem (join_room g room conn) r)
    ∙ ap (λ o. member (members o) d) (find-put g.room_members room s r)
    ∙ elim (Bool-cases (room == r)) [
      | inl same ↦ rw same (
          member-insert (members_of g room) conn d
          ∙ ap (λ k. conn == d || member (members_of g k) d) (==→eq room r same))
      | inr other ↦ rw other (ap (λ x. member x d) (sym (members_of_lem g r)))
    ]

close_client_run :
    (g : Rooms) (conn room : ℕ)
    → find g.conn_room conn ≡ some room
    → close_client g conn ≡ leave_room g room conn
unfolding close_client leave_room
close_client_run g conn room e =
    ap
      (λ (o : Option ℕ).
        let out : Rooms = elim o [
          | none ↦ g
          | some room ↦ record {
            room_members = remove_member g.room_members room conn;
            conn_room = erase g.conn_room conn;
          }
        ] in
        out)
      e

leave_room_lem :
    (g : Rooms) (room conn r d : ℕ)
    → member (members_of (leave_room g room conn) r) d
      ≡ (if room == r && conn == d then false else member (members_of g r) d)
unfolding leave_room
leave_room_lem g room conn r d =
    ap (λ x. member x d) (members_of_lem (leave_room g room conn) r)
    ∙ remove_member_lem g.room_members room conn r d
    ∙ ap (λ x. if room == r && conn == d then false else member x d) (sym (members_of_lem g r))

joined_last : (g : Rooms) (room conn : ℕ) → find (join_room g room conn).conn_room conn ≡ some room
unfolding join_room
joined_last g room conn =
    find-put g.conn_room conn room conn
    ∙ ap (λ b. if b then some room else find g.conn_room conn) (==_self conn)

left_none : (g : Rooms) (room conn : ℕ) → find (leave_room g room conn).conn_room conn ≡ none
unfolding leave_room
left_none g room conn =
    find-erase g.conn_room conn conn
    ∙ ap (λ b. if b then none else find g.conn_room conn) (==_self conn)

-- A client that joined one room and then another, with no leave between, and disconnects is taken out of
-- the second room but stays a member of the first, while nothing remembers that it is there.
pub close_client-join_room :
    (g : Rooms) (first second conn : ℕ)
    → first ≢ second
    → let g' = close_client (join_room (join_room g first conn) second conn) conn in
      (member (members_of g' first) conn ≡ true)
      × (member (members_of g' second) conn ≡ false)
      × (find g'.conn_room conn ≡ none)
close_client-join_room g first second conn ne =
    let g1 = join_room g first conn in
    let g2 = join_room g1 second conn in
    let apart : (second == first) ≡ false = ne→== second first (λ e. ne (sym e)) in
    let still : member (members_of g1 first) conn ≡ true =
      join_room_lem g first conn first conn
      ∙ ap₂ (λ a b. a && b || member (members_of g first) conn) (==_self first) (==_self conn) in
    let stays : member (members_of g2 first) conn ≡ true =
      join_room_lem g1 second conn first conn
      ∙ ap (λ a. a && conn == conn || member (members_of g1 first) conn) apart
      ∙ still in
    subst
      (λ (x : Rooms).
        (member (members_of x first) conn ≡ true)
        × (member (members_of x second) conn ≡ false)
        × (find x.conn_room conn ≡ none))
      (sym (close_client_run g2 conn second (joined_last g1 second conn)))
      (
        leave_room_lem g2 second conn first conn
            ∙ ap (λ a. if a && conn == conn then false else member (members_of g2 first) conn) apart
            ∙ stays,
        leave_room_lem g2 second conn second conn
            ∙ ap₂ (λ a b. if a && b then false else member (members_of g2 second) conn)
                (==_self second) (==_self conn),
        left_none g2 second conn,
      )
