-- ===== src/Logs/Syslog/RoundTrip.antt =====
-- A message of RFC 5424 is read back as it was written (parseSyslog of
-- internal/modules/logs/syslog.go).
use my_own_agent.Prelude.{ℕ, ◌/◌, ◌%◌, Bool, true, ◌||◌, ltb, [], ◌∷◌, ◌++◌, length, any}
use my_own_agent.Logs.Severity.{Bytes, trim_left, is_space}
use my_own_agent.Logs.Syslog.{
  SyslogMessage, Clock, process_number, nil_dash, byte_order_mark, trim_prefix, with_time,
  plain_message,
}
use my_own_agent.Logs.Syslog.Wire.{
  Wire, written_body, write_structured_data, holds, is_empty, bad_field, bad_element, bad_body,
  meaning,
}

-- A message that cannot be read back: a field is empty or holds a space, the priority is empty,
-- longer than three bytes or holds a closing bracket, a name of the structured data needs an escape,
-- or the body, with no mark ahead of it, starts with a space or a mark.
abbrev bad_wire : Wire → Bool
bad_wire w =
    is_empty w.priority
    || ltb 3 (length w.priority)
    || holds 62 w.priority
    || bad_field w.time
    || bad_field w.hostname
    || bad_field w.app_name
    || bad_field w.procid
    || bad_field w.msgid
    || any bad_element w.elements
    || bad_body w

-- What is read from a message with a priority of `n`.
abbrev pub received : Clock → Wire → ℕ → SyslogMessage
received clock w n = record (with_time (clock.rfc3339 w.time) (plain_message [])) {
  priority = n % 8;
  facility = n / 8;
  has_priority = true;
  hostname = meaning w.hostname;
  app_name = meaning w.app_name;
  pid = process_number (meaning w.procid);
  message = w.body;
}

-- What is read of a message, field by field as the parser treats them.
abbrev read_back : Clock → Wire → ℕ → SyslogMessage
read_back clock w n = record (with_time (clock.rfc3339 w.time) (plain_message [])) {
  priority = n % 8;
  facility = n / 8;
  has_priority = true;
  hostname = nil_dash w.hostname;
  app_name = nil_dash w.app_name;
  pid = process_number (nil_dash w.procid);
  message = trim_prefix byte_order_mark (trim_left is_space (written_body w));
}

-- What stands behind the priority and the version.
fields : Wire → Bytes
fields w =
    w.time
    ++ (32
        ∷ (w.hostname
            ++ (32
                ∷ (w.app_name
                    ++ (32
                        ∷ (w.procid
                            ++ (32
                                ∷ (w.msgid
                                    ++ (32
                                        ∷ write_structured_data w.elements
                                            (32 ∷ written_body w))))))))))

-- The message that parse5424 starts from.
abbrev started : Bytes → ℕ → SyslogMessage
started rest n = record (plain_message rest) {
  has_priority = true;
  priority = n % 8;
  facility = n / 8;
}
