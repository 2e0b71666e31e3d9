-- ===== src/Receive/Again.antt =====
-- `ProcessDatagram` of one datagram that arrives twice.
use tonk.StrikeRegister.{StrikeRegister}
