-- ===== src/Tests/Upload.antt =====
-- The theorems on the sending thread of the data plane and on runs of the receiving one, at concrete
-- packets.
use open_hybrid.Base.{
  ℕ, ◌≡◌, refl, inl, inr, true, List, [], ◌∷◌, ◌++◌, ok, Post, length, drop, replicate, arith,
}
use open_hybrid.Runtime.{Timeval}
use open_hybrid.Bytes.{load16, load32, htons, htonl}
use open_hybrid.Reorder.{ordered, next, flush_buffer, gre2tun_round, recv_packet, start_thread}
use open_hybrid.Reorder.Order.{Ascending}
use open_hybrid.Reorder.Trace.{Step, arrival, started, round, Trace-Ascending}
use open_hybrid.Sender.{gre_header}
use open_hybrid.Sender.Delivery.{gre2tun_round-gre_header}
use open_hybrid.Base.Text.{codes}
use open_hybrid.Threads.{thread_name, recv_suffix, send_suffix, thread_name-suffixes}
use open_hybrid.Sender.Runs.{
  send_all, receive_all, sent_over_lte, ordered_from, send_all-receive_all,
}
use open_hybrid.Tests.{session, tenth}

-- The first bytes of an IPv4 packet.
abbrev payload : List ℕ
payload = 69 ∷ 0 ∷ 0 ∷ 20 ∷ []

abbrev moment : Timeval
moment = record { tv_sec = 5; tv_usec = 0 }

abbrev receiver : open_hybrid.Reorder.Thread
receiver = record { packets = []; sequence_flushed = 6; buffer = replicate 40 0; written = [] }

abbrev sender : open_hybrid.Sender.Thread
sender = record { sequence = 7; buffer = replicate 60 0 }

-- An IPv6 packet.
abbrev payload6 : List ℕ
payload6 = 96 ∷ 0 ∷ []

send_all-receive_all_example :
    (messages : List (List ℕ)) × ((t' : open_hybrid.Sender.Thread) × (send_all
          (payload ∷ payload6 ∷ [])
          sender
          session
        ≡ ok (t', record session { trace = sent_over_lte session messages session.trace })))
    × ((u' : open_hybrid.Reorder.Thread) × (receive_all
            (1 ∷ [])
            tenth
            (λ n. (moment, moment))
            messages
            receiver
          ≡ ok u')
        × (u'.written ≡ [] ++ ordered_from 7 (payload ∷ payload6 ∷ []))
        × (u'.packets ≡ []))
send_all-receive_all_example =
    send_all-receive_all (1 ∷ []) tenth (λ n. (moment, moment)) (payload ∷ payload6 ∷ []) sender
      session receiver ((inl refl, omega arith), ((inr refl, omega arith), tt)) refl (omega arith)
      refl refl refl

thread_name-suffixes_example :
    (thread_name 7 recv_suffix (codes "tun0") ≡ ok (codes "tun0-recv"))
    × (thread_name 7 send_suffix (codes "tun0") ≡ ok (codes "tun0-send"))
thread_name-suffixes_example = thread_name-suffixes 7 (codes "tun0") (omega arith)

abbrev first_bytes : List ℕ
first_bytes = gre_header 22 0x0800 0 true ++ payload

abbrev after_first : open_hybrid.Reorder.Thread
after_first = record {
  packets = [];
  sequence_flushed = 0;
  buffer = first_bytes ++ drop (length first_bytes) (replicate 40 0);
  written = [] ++ (ordered 0 payload ∷ []);
}

first_Step : Step tenth (1 ∷ []) (start_thread (replicate 40 0)) after_first
unfolding load16 load32 gre_header htons htonl start_thread
first_Step =
    arrival moment moment (1 ∷ []) first_bytes 12288 0 refl refl
      (λ haap. record {
        headed = omega arith;
        short = omega arith;
        room = omega arith;
        whole = omega arith;
        fresh = tt;
        below_max = omega arith;
        in_time = λ _. omega arith;
      })
      (gre2tun_round-gre_header moment moment tenth (1 ∷ []) 22 0x0800 payload
        (start_thread (replicate 40 0)) refl (omega arith) refl)

Trace-Ascending_example :
    Ascending 0 (next after_first.sequence_flushed) after_first.written
    × Post ⊥
        (λ v. Ascending 0 (next v.sequence_flushed) v.written)
        (flush_buffer moment tenth after_first)
Trace-Ascending_example =
    Trace-Ascending tenth (1 ∷ []) (replicate 40 0) after_first moment (round started first_Step)
