-- ===== src/Examples/Client.antt =====
-- The example program client.cpp: a client that asks for `/` and, after each piece of the answers,
-- asks again. What the system calls give is an argument.
use my_web_socket.Prelude.{
  ℕ, suc, ◌≡◌, refl, Bool, true, false, Bool-cases, inl, inr, List, [], ◌∷◌, ◌++◌, codes, ◌==◌,
  if◌then◌else◌,
}

-- A result of `read`: what is in the buffer, the end of the stream, or an error.
pub data ReadResult : Type 0 where
  got : List ℕ → ReadResult
  end_of_stream read_failed : ReadResult

-- Whether the calls succeed, `write_ok` for each write, and what the reads give; reads beyond the
-- list are the end of the stream.
pub record SystemCalls : Type 0 where
  pub socket_ok : Bool
  pub address_ok : Bool
  pub connect_ok : Bool
  pub write_ok : ℕ → Bool
  pub reads : List ReadResult

pub data ClientEffect : Type 0 where
  print perror write : List ℕ → ClientEffect
  close_fd : ClientEffect
  return_status : ℕ → ClientEffect

abbrev pub http_request : List ℕ
http_request =
    codes "GET / HTTP/1.1"
    ++ (13
        ∷ 10
        ∷ (codes "Host: 127.0.0.1:8081"
            ++ (13 ∷ 10 ∷ (codes "Connection: keep-alive" ++ (13 ∷ 10 ∷ 13 ∷ 10 ∷ [])))))

-- The loop over the buffer, which leaves out the carriage returns.
unfoldable pub printed : List ℕ → List ℕ
printed [] = []
printed (c ∷ cs) = if c == 13 then printed cs else c ∷ printed cs

-- The end of `main` after the loop, and its early exits.
unfoldable pub after_loop : Bool → List ClientEffect
after_loop failed =
    (if failed then perror (codes "Read failed") ∷ [] else [])
    ++ (print (10 ∷ (codes "--- End of Response ---" ++ (10 ∷ [])))
        ∷ close_fd
        ∷ print (codes "Connection closed." ++ (10 ∷ []))
        ∷ return_status 0
        ∷ [])

abbrev pub fail : List ℕ → List ClientEffect
fail message = perror message ∷ close_fd ∷ return_status 1 ∷ []

-- The loop over the reads; `n` writes have been done.
unfoldable pub read_loop : (ℕ → Bool) → ℕ → List ReadResult → List ClientEffect
unfolding printed after_loop
read_loop ok n [] = after_loop false
read_loop ok n (end_of_stream ∷ rs) = after_loop false
read_loop ok n (read_failed ∷ rs) = after_loop true
read_loop ok n (got bytes ∷ rs) =
    let rest = read_loop ok (suc n) rs in
    print (printed bytes)
    ∷ write http_request
    ∷ (if ok n then rest else fail (codes "Failed to send request"))

-- `main`.
unfoldable pub client_main : SystemCalls → List ClientEffect
unfolding read_loop
client_main e =
    print (codes "http start" ++ (10 ∷ []))
    ∷ (if e.socket_ok
        then (if e.address_ok
            then (if e.connect_ok
                then print (codes "Successfully connected to server at 127.0.0.1:8081" ++ (10 ∷ []))
                  ∷ print http_request
                  ∷ write http_request
                  ∷ (if e.write_ok 0
                      then print (codes "HTTP request sent." ++ (10 ∷ 10 ∷ []))
                        ∷ print (codes "--- Server Response ---" ++ (10 ∷ []))
                        ∷ read_loop e.write_ok 1 e.reads
                      else fail (codes "Failed to send request"))
                else fail (codes "Connection Failed"))
            else fail (codes "Invalid address/ Address not supported"))
        else perror (codes "Socket creation failed") ∷ return_status 1 ∷ [])

-- How often the descriptor is closed.
pub closes : List ClientEffect → ℕ
closes [] = 0
closes (close_fd ∷ es) = suc (closes es)
closes (_ ∷ es) = closes es

-- How often it is written to after that, if `is_closed` tells whether it was closed before.
pub late_writes : Bool → List ClientEffect → ℕ
late_writes is_closed [] = 0
late_writes is_closed (close_fd ∷ es) = late_writes true es
late_writes is_closed (write text ∷ es) =
    let rest = late_writes is_closed es in if is_closed then suc rest else rest
late_writes is_closed (_ ∷ es) = late_writes is_closed es

abbrev ClosesOnce : List ClientEffect → Type 0
ClosesOnce es = (closes es ≡ 1) × (late_writes false es ≡ 0)

read_loop-ClosesOnce :
    (ok : ℕ → Bool) (n : ℕ) (rs : List ReadResult) → ClosesOnce (read_loop ok n rs)
unfolding read_loop after_loop closes late_writes
read_loop-ClosesOnce ok n [] = (refl, refl)
read_loop-ClosesOnce ok n (end_of_stream ∷ rs) = (refl, refl)
read_loop-ClosesOnce ok n (read_failed ∷ rs) = (refl, refl)
read_loop-ClosesOnce ok n (got bytes ∷ rs) = elim (Bool-cases (ok n)) [
  | inl e ↦ rw (e, read_loop) (read_loop-ClosesOnce ok (suc n) rs)
  | inr e ↦ rw (e, read_loop) (refl, refl)
]

-- Whatever the system calls give: the client closes the descriptor once if the socket was made, and
-- else not, and does not write to it after it was closed.
pub client_main-closes :
    (e : SystemCalls)
    → (closes (client_main e) ≡ (if e.socket_ok then 1 else 0))
      × (late_writes false (client_main e) ≡ 0)
unfolding client_main closes late_writes
client_main-closes e =
    let looped = read_loop-ClosesOnce e.write_ok 1 e.reads in
    elim (Bool-cases e.socket_ok) [
      | inr s ↦ rw (s, client_main) (refl, refl)
      | inl s ↦ elim (Bool-cases e.address_ok) [
        | inr a ↦ rw (s, a, client_main) (refl, refl)
        | inl a ↦ elim (Bool-cases e.connect_ok) [
          | inr c ↦ rw (s, a, c, client_main) (refl, refl)
          | inl c ↦ elim (Bool-cases (e.write_ok 0)) [
            | inr w ↦ rw (s, a, c, w, client_main) (refl, refl)
            | inl w ↦ rw (s, a, c, w, client_main) looped
          ]
        ]
      ]
    ]
