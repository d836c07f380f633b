-- ===== src/UsbSerial/Device.antt =====
-- The driver as the `Serial` of the kernel: what `impl Serial for UsbUartSys` gives to the handler of
-- the system calls, and the trait's promises, kept.
use mathlib.Core.Path.{subst}
use pellegrino.Base.{IfDone}
use pellegrino.UsbSerial.State.{Platform, UsbUartSys}
use pellegrino.UsbSerial.Ports.{register_port, release_port}
use pellegrino.UsbSerial.Send.{send}
use pellegrino.UsbSerial.Send.Delivery.{IsEnd, send-IsEnd}
use pellegrino.UsbSerial.Receive.{process, recv}
use pellegrino.UsbSerial.Receive.Take.{Within, recv-Within}
use pellegrino.Syscall.Handler.{Serial, SerialLaws}

abbrev pub usb_serial : Platform → Serial
usb_serial p = record {
  State = UsbUartSys p;
  register_port = register_port;
  release_port = release_port;
  process = process p;
  recv = recv p;
  send = send;
}

-- The driver keeps what the trait `Serial` promises: `recv` returns no more bytes than the buffer
-- holds, and what `send` returns as unsent is the end of the data.
pub usb_serial-SerialLaws : (p : Platform) → SerialLaws (usb_serial p)
usb_serial-SerialLaws p = record {
  recv-within = λ port n s s' bs e. subst (IfDone (Within p n)) e (recv-Within p port n s);
  send-suffix = λ port buf s s' rest e. subst (IfDone (IsEnd buf)) e (send-IsEnd port buf s);
}
